-- ===== src/Text/Trim.antt =====
-- What TrimPrefix, TrimSuffix and HasSuffix do.
use builder.Text.Equality.{eqb_sound, eqb_iff, eqb_refl}
use builder.Base.{refl, [], length-append, length, inr, inl, ap, Bool-cases, ◌≢◌, arith}
use builder.Text.{
  eqb, true, ◌++◌, ◌∷◌, ◌≡◌, ℕ, Bytes, has_prefix, trim_prefix, has_suffix, trim_suffix,
}
use builder.Text.Search.{has_prefix-append}

pub trim_prefix-append : (p r : Bytes) → trim_prefix (p ++ r) p ≡ r
unfolding trim_prefix
trim_prefix-append [] r = refl
trim_prefix-append (c ∷ p) r = ground (arith, trim_prefix-append p r, has_prefix-append (c ∷ p) r)

-- What is trimmed stands in front of the rest.
pub trim_prefix_lem : (s p : Bytes) → (a : Bytes) × (s ≡ a ++ trim_prefix s p)
unfolding trim_prefix
trim_prefix_lem s [] = ([], refl)
trim_prefix_lem [] (d ∷ p) = ([], refl)
trim_prefix_lem (c ∷ s) (d ∷ p) = elim (Bool-cases (has_prefix (c ∷ s) (d ∷ p))) [
  | inl has ↦ let (a, e) = trim_prefix_lem s p in (c ∷ a, ground arith)
  | inr lacks ↦ ([], ground arith)
]

pub trim_suffix_lem : (s t : Bytes) → (b : Bytes) × (s ≡ trim_suffix s t ++ b)
unfolding trim_suffix
trim_suffix_lem [] t = ([], refl)
trim_suffix_lem (c ∷ s) t = elim (Bool-cases (eqb (c ∷ s) t)) [
  | inl whole ↦ (c ∷ s, ground arith)
  | inr part ↦ let (b, e) = trim_suffix_lem s t in (b, ground arith)
]

append-ne_self : (c : ℕ) (s t : Bytes) → c ∷ (s ++ t) ≢ t
append-ne_self c s t e = omega (arith, ap (length {A = ℕ}) e, length-append s t)

pub trim_suffix-append : (s t : Bytes) → trim_suffix (s ++ t) t ≡ s
unfolding trim_suffix
trim_suffix-append [] [] = refl
trim_suffix-append [] (d ∷ t) = ground (arith, eqb_refl (d ∷ t))
trim_suffix-append (c ∷ s) t =
    ground (arith, trim_suffix-append s t, eqb_iff (c ∷ (s ++ t)) t, append-ne_self c s t)

-- A text has the suffix exactly when it is a text with the suffix behind it, and then that text is what
-- the trim leaves.
pub has_suffix_sound : (s t : Bytes) → has_suffix s t ≡ true → (r : Bytes) × (s ≡ r ++ t)
unfolding has_suffix
has_suffix_sound [] t h = ([], ground (arith, eqb_iff [] t))
has_suffix_sound (c ∷ s) t h = elim (Bool-cases (eqb (c ∷ s) t)) [
  | inl whole ↦ ([], eqb_sound (c ∷ s) t whole)
  | inr part ↦ let (r, e) = has_suffix_sound s t (ground arith) in (c ∷ r, ground arith)
]

pub has_suffix-append : (r t : Bytes) → has_suffix (r ++ t) t ≡ true
unfolding has_suffix
has_suffix-append [] [] = ground (arith, eqb_refl [])
has_suffix-append [] (d ∷ t) = ground (arith, eqb_refl (d ∷ t))
has_suffix-append (c ∷ r) t = ground (arith, has_suffix-append r t)
