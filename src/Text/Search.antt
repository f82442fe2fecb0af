-- ===== src/Text/Search.antt =====
-- What HasPrefix and Contains decide.
use builder.Text.Equality.{eqb_iff, eqb_refl}
use builder.Base.{
  append-nil, inl, inr, Bool-cases, refl, arith, ◌↔◌, append_assoc, ◌≢◌, true, ◌∷◌, false, All,
}
use builder.Text.{◌≡◌, [], ◌++◌, ℕ, Bytes, has_prefix, contains, replace_byte}

pub has_prefix_sound : (s p : Bytes) → has_prefix s p ≡ true → (r : Bytes) × (s ≡ p ++ r)
unfolding has_prefix
has_prefix_sound s [] h = (s, refl)
has_prefix_sound [] (d ∷ p) h = absurd (ground arith)
has_prefix_sound (c ∷ s) (d ∷ p) h =
    let (r, e) = has_prefix_sound s p (ground arith) in (r, ground arith)

pub has_prefix-append : (p r : Bytes) → has_prefix (p ++ r) p ≡ true
unfolding has_prefix
has_prefix-append [] r = refl
has_prefix-append (c ∷ p) r = ground (arith, has_prefix-append p r)

-- `sub` stands somewhere in `s`.
abbrev pub Within : Bytes → Bytes → Type 0
Within sub s = (before : Bytes) × (after : Bytes) × (s ≡ before ++ (sub ++ after))

pub contains_sound : (s sub : Bytes) → contains s sub ≡ true → Within sub s
unfolding contains
contains_sound [] sub h = ([], [], ground (arith, eqb_iff [] sub, append-nil sub))
contains_sound (c ∷ s) sub h = elim (Bool-cases (has_prefix (c ∷ s) sub)) [
  | inl here ↦ let (r, e) = has_prefix_sound (c ∷ s) sub here in ([], r, e)
  | inr later ↦ let (a, b, e) = contains_sound s sub (ground arith) in (c ∷ a, b, ground arith)
]

pub contains-append : (a sub b : Bytes) → contains (a ++ (sub ++ b)) sub ≡ true
unfolding contains
contains-append [] [] [] = ground (arith, eqb_refl [])
contains-append [] [] (c ∷ b) = ground (arith, has_prefix-append [] (c ∷ b))
contains-append [] (d ∷ sub) b = ground (arith, has_prefix-append (d ∷ sub) b)
contains-append (c ∷ a) sub b = ground (arith, contains-append a sub b)

pub contains_iff : (s sub : Bytes) → (contains s sub ≡ true) ↔ Within sub s
contains_iff s sub = (contains_sound s sub, λ (a, b, e). rw e (contains-append a sub b))

-- A text within a text that lacks `sub` lacks it too.
pub contains-Within :
    (s t sub : Bytes) → Within t s → contains s sub ≡ false → contains t sub ≡ false
contains-Within s t sub (a, b, e) h = elim (Bool-cases (contains t sub)) [
  | inr lacks ↦ lacks
  | inl has ↦
      let (x, y, q) = contains_sound t sub has in
      absurd (cc (contains-append (a ++ x) sub (y ++ b), regroup a x y b sub, e, q, h))
]
  where
    regroup : (a x y b sub : Bytes) → (a ++ x) ++ (sub ++ (y ++ b)) ≡ a ++ ((x ++ (sub ++ y)) ++ b)
    regroup a x y b sub = simp append_assoc

-- No byte of the text is `b`.
abbrev pub Lacks : ℕ → Bytes → Type 0
Lacks b = All (λ c. c ≢ b)

pub replace_byte_absent : (b : ℕ) (new s : Bytes) → Lacks b s → replace_byte b new s ≡ s
unfolding replace_byte
replace_byte_absent b new [] h = refl
replace_byte_absent b new (c ∷ s) h = ground (arith, replace_byte_absent b new s h.1)

-- What is dropped is gone.
pub replace_byte-Lacks : (b : ℕ) (s : Bytes) → Lacks b (replace_byte b [] s)
unfolding replace_byte
replace_byte-Lacks b [] = tt
replace_byte-Lacks b (c ∷ s) = ground (arith, replace_byte-Lacks b s)

pub replace_byte-append :
    (b : ℕ) (new s t : Bytes)
    → replace_byte b new (s ++ t) ≡ replace_byte b new s ++ replace_byte b new t
unfolding replace_byte
replace_byte-append b new [] t = refl
replace_byte-append b new (c ∷ s) t = simp (replace_byte-append b new s t, append_assoc)
