-- ===== src/Git/Sha.antt =====
-- pkg/git/sha.go
pub mod Valid
use builder.Base.{
  length, if◌then◌else◌, ◌==◌, err, ok, Result, Bytes, ◌∷◌, [], some, none, Option, not, true, Bool,
  suc, zero, ℕ, leb, ◌&&◌, ◌||◌,
}

abbrev pub short_sha_idx : ℕ
short_sha_idx = 8

-- [\da-f]
unfoldable pub is_sha_digit : ℕ → Bool
is_sha_digit c = (leb b'0' c && leb c b'9') || (leb b'a' c && leb c b'f')

all_sha_digits : Bytes → Bool
unfolding is_sha_digit
all_sha_digits [] = true
all_sha_digits (c ∷ s) = is_sha_digit c && all_sha_digits s

-- shaRegex.MatchString, for the expression ^[\da-f]{40}$
sha_regex_matches : Bytes → Bool
unfolding all_sha_digits
sha_regex_matches s = (length s == 40) && all_sha_digits s

-- ErrInvalidGitSha
pub record InvalidGitSha : Type 0 where
  pub sha : Bytes

-- `SHA`, with `Full` and `Short`
pub record Sha : Type 0 where
  pub full : Bytes
  pub short : Bytes

-- s[0:n], which panics if the text is shorter.
slice_to : ℕ → Bytes → Option Bytes
slice_to zero s = some []
slice_to (suc n) [] = none
slice_to (suc n) (c ∷ s) = elim (slice_to n s) [ none ↦ none | some r ↦ some (c ∷ r) ]

-- `none` is a panic.
unfoldable pub new_sha : Bytes → Option (Result InvalidGitSha Sha)
unfolding sha_regex_matches slice_to
new_sha raw_sha =
    if not (sha_regex_matches raw_sha)
    then some (err (record { sha = raw_sha }))
    else elim (slice_to short_sha_idx raw_sha) [
      | none ↦ none
      | some short ↦ some (ok (record { full = raw_sha; short = short }))
    ]
