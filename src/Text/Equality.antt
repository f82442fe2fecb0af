-- ===== src/Text/Equality.antt =====
-- Go's `==` on strings.
use builder.Base.{◌≢◌, ◌≡◌, refl, ◌↔◌, Bool, true, false, ◌&&◌, [], ◌∷◌, arith, Bytes, ◌==◌}

unfoldable pub eqb : Bytes → Bytes → Bool
eqb [] [] = true
eqb [] (d ∷ t) = false
eqb (c ∷ s) [] = false
eqb (c ∷ s) (d ∷ t) = (c == d) && eqb s t

pub eqb_sound : (s t : Bytes) → eqb s t ≡ true → s ≡ t
unfolding eqb
eqb_sound [] [] h = refl
eqb_sound [] (d ∷ t) h = ground arith
eqb_sound (c ∷ s) [] h = ground arith
eqb_sound (c ∷ s) (d ∷ t) h = ground (arith, eqb_sound s t)

pub eqb_refl : (s : Bytes) → eqb s s ≡ true
unfolding eqb
eqb_refl [] = refl
eqb_refl (c ∷ s) = ground (arith, eqb_refl s)

pub eqb_complete : (s t : Bytes) → s ≡ t → eqb s t ≡ true
eqb_complete s t e = ground (arith, eqb_refl s)

pub eqb_iff : (s t : Bytes) → (eqb s t ≡ true) ↔ (s ≡ t)
eqb_iff s t = (eqb_sound s t, eqb_complete s t)

pub eqb_nil : (s : Bytes) → s ≢ [] → eqb s [] ≡ false
unfolding eqb
eqb_nil [] h = absurd (h refl)
eqb_nil (c ∷ s) h = refl
