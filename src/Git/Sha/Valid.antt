-- ===== src/Git/Sha/Valid.antt =====
-- What `NewSha` accepts, and what it returns.
use builder.Base.{
  All, length-take, take, length, Bool-cases, err, ok, Bytes, arith, ◌∷◌, [], some, true, inr, inl,
  ◌⊎◌, refl, ap, ◌≡◌, ◌≤◌, suc, zero, ℕ,
}
use builder.Git.Sha.{Sha, is_sha_digit, all_sha_digits, sha_regex_matches, slice_to, new_sha}

-- A decimal digit, or a letter from a to f.
abbrev pub IsShaDigit : ℕ → Type 0
IsShaDigit c = ((b'0' ≤ c) × (c ≤ b'9')) ⊎ ((b'a' ≤ c) × (c ≤ b'f'))

abbrev pub IsSha : Bytes → Type 0
IsSha s = (length s ≡ 40) × All IsShaDigit s

is_sha_digit_sound : (c : ℕ) → is_sha_digit c ≡ true → IsShaDigit c
unfolding is_sha_digit
is_sha_digit_sound c h = grind arith

is_sha_digit_complete : (c : ℕ) → IsShaDigit c → is_sha_digit c ≡ true
unfolding is_sha_digit
is_sha_digit_complete c h = ground arith

all_sha_digits_sound : (s : Bytes) → all_sha_digits s ≡ true → All IsShaDigit s
unfolding all_sha_digits
all_sha_digits_sound [] h = tt
all_sha_digits_sound (c ∷ s) h =
    (is_sha_digit_sound c (ground arith), all_sha_digits_sound s (ground arith))

all_sha_digits_complete : (s : Bytes) → All IsShaDigit s → all_sha_digits s ≡ true
unfolding all_sha_digits
all_sha_digits_complete [] h = refl
all_sha_digits_complete (c ∷ s) h =
    ground (arith, is_sha_digit_complete c h.0, all_sha_digits_complete s h.1)

slice_to-take : (n : ℕ) (s : Bytes) → n ≤ length s → slice_to n s ≡ some (take n s)
unfolding slice_to
slice_to-take zero s h = refl
slice_to-take (suc n) [] h = absurd (omega arith)
slice_to-take (suc n) (c ∷ s) h = rw (slice_to-take n s (omega arith))

-- A text of 40 digits in lower case hexadecimal is accepted: it is the full hash, and the short one is
-- its first eight characters.
pub new_sha_valid :
    (raw : Bytes)
    → IsSha raw
    → (new_sha raw ≡ some (ok (record { full = raw; short = take 8 raw })))
      × (length (take 8 raw) ≡ 8)
unfolding new_sha sha_regex_matches
new_sha_valid raw (len, digits) = (
  ground (arith, all_sha_digits_complete raw digits, slice_to-take 8 raw (omega arith)),
  omega (arith, length-take 8 raw),
)

-- Any other text is refused with the error that holds it.
pub new_sha_invalid : (raw : Bytes) → ¬ IsSha raw → new_sha raw ≡ some (err (record { sha = raw }))
unfolding new_sha sha_regex_matches
new_sha_invalid raw bad = elim (Bool-cases (sha_regex_matches raw)) [
  | inr no_match ↦ rw no_match
  | inl match ↦ absurd (bad (ground arith, all_sha_digits_sound raw (ground arith)))
]

-- What is accepted is such a text.
pub new_sha_accepted :
    (raw : Bytes) (sha : Sha) → new_sha raw ≡ some (ok sha) → IsSha raw × (sha.short ≡ take 8 raw)
unfolding new_sha sha_regex_matches
new_sha_accepted raw sha e = elim (Bool-cases (sha_regex_matches raw)) [
  | inl match ↦
      let valid : IsSha raw = (ground arith, all_sha_digits_sound raw (ground arith)) in
      let same : sha ≡ record { full = raw; short = take 8 raw } =
        cc ((new_sha_valid raw valid).0, e) in
      (valid, ap (λ (x : Sha). x.short) same)
  | inr no_match ↦ absurd (cc (rw no_match at e))
]
