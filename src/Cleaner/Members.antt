-- ===== src/Cleaner/Members.antt =====
-- Whether a text is in a list.
use builder.Base.{
  Bytes, ◌∷◌, [], List, ◌||◌, false, true, Bool, ◌≡◌, All, Bool-cases, inl, inr, arith,
}
use builder.Text.Equality.{eqb, eqb_sound}

unfoldable pub member : Bytes → List Bytes → Bool
member x [] = false
member x (y ∷ ys) = eqb y x || member x ys

pub All-member :
    (P : Bytes → Type 0) (x : Bytes) (xs : List Bytes) → All P xs → member x xs ≡ true → P x
unfolding member
All-member P x [] h m = absurd (cc m)
All-member P x (y ∷ ys) h m = elim (Bool-cases (eqb y x)) [
  | inl same ↦ rw (← eqb_sound y x same) h.0
  | inr other ↦ All-member P x ys h.1 (ground (arith, m, other))
]
