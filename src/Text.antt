-- ===== src/Text.antt =====
-- The functions of Go's package `strings` that the program calls, on byte strings: Contains,
-- HasPrefix, HasSuffix, TrimPrefix, TrimSuffix, LastIndex, ReplaceAll and a byte replacer, Split
-- and SplitN at one byte, Join, TrimSpace and ToLower. The last two are those of ASCII text.
pub mod Equality
pub mod Search
pub mod Trim
pub mod Split
pub mod Decimal
use builder.Base.{
  ℕ, zero, suc, ◌+◌, ◌-◌, ◌≡◌, refl, Bool, true, false, ◌&&◌, ◌||◌, Option, none, some, List, [],
  ◌∷◌, ◌++◌, map, Bytes, leb, ◌==◌, if◌then◌else◌,
}
use Equality.{eqb}

-- strings.HasPrefix
unfoldable pub has_prefix : Bytes → Bytes → Bool
has_prefix s [] = true
has_prefix [] (d ∷ p) = false
has_prefix (c ∷ s) (d ∷ p) = (c == d) && has_prefix s p

-- strings.TrimPrefix
unfoldable pub trim_prefix : Bytes → Bytes → Bytes
trim_prefix s [] = s
trim_prefix [] (d ∷ p) = []
trim_prefix (c ∷ s) (d ∷ p) = if has_prefix (c ∷ s) (d ∷ p) then trim_prefix s p else c ∷ s

-- strings.HasSuffix
unfoldable pub has_suffix : Bytes → Bytes → Bool
has_suffix [] suffix = eqb [] suffix
has_suffix (c ∷ s) suffix = eqb (c ∷ s) suffix || has_suffix s suffix

-- strings.TrimSuffix
unfoldable pub trim_suffix : Bytes → Bytes → Bytes
trim_suffix [] suffix = []
trim_suffix (c ∷ s) suffix = if eqb (c ∷ s) suffix then [] else c ∷ trim_suffix s suffix

-- strings.Contains
unfoldable pub contains : Bytes → Bytes → Bool
contains [] sub = eqb [] sub
contains (c ∷ s) sub = has_prefix (c ∷ s) sub || contains s sub

-- strings.LastIndex, where `none` is -1.
unfoldable pub last_index : Bytes → Bytes → Option ℕ
last_index [] sub = if eqb [] sub then some 0 else none
last_index (c ∷ s) sub = elim (last_index s sub) [
  | some i ↦ some (suc i)
  | none ↦ if has_prefix (c ∷ s) sub then some 0 else none
]

-- strings.ReplaceAll, and strings.NewReplacer, where what is replaced is one byte.
unfoldable pub replace_byte : ℕ → Bytes → Bytes → Bytes
replace_byte b new [] = []
replace_byte b new (c ∷ s) = (if c == b then new else c ∷ []) ++ replace_byte b new s

-- A byte in front of the parts of a text: it starts a part, if it is the separator.
abbrev pub put_front : ℕ → ℕ → List Bytes → List Bytes
put_front c sep [] = [] ∷ []
put_front c sep (part ∷ parts) = if c == sep then [] ∷ part ∷ parts else (c ∷ part) ∷ parts

-- strings.Split at a one-byte separator
unfoldable pub split : Bytes → ℕ → List Bytes
split [] sep = [] ∷ []
split (c ∷ s) sep = put_front c sep (split s sep)

-- strings.SplitN(s, sep, 2): the text before the first `sep`, and what is behind it if there is one.
unfoldable pub split_2 : Bytes → ℕ → Bytes × Option Bytes
split_2 [] sep = ([], none)
split_2 (c ∷ s) sep =
    let (first, rest) = split_2 s sep in if c == sep then ([], some s) else (c ∷ first, rest)

-- strings.Join
unfoldable pub join : List Bytes → Bytes → Bytes
join [] sep = []
join (p ∷ []) sep = p
join (p ∷ q ∷ ps) sep = p ++ (sep ++ join (q ∷ ps) sep)

abbrev is_space : ℕ → Bool
is_space c = (leb 9 c && leb c 13) || (c == 32)

trim_left : Bytes → Bytes
trim_left [] = []
trim_left (c ∷ s) = if is_space c then trim_left s else c ∷ s

trim_right : Bytes → Bytes
trim_right [] = []
trim_right (c ∷ s) = elim (trim_right s) [
  | [] ↦ if is_space c then [] else c ∷ []
  | d ∷ r ↦ c ∷ d ∷ r
]

-- strings.TrimSpace
unfoldable pub trim_space : Bytes → Bytes
unfolding trim_left trim_right
trim_space s = trim_left (trim_right s)

unfoldable pub lower : ℕ → ℕ
lower c = if leb 65 c && leb c 90 then c + 32 else c

-- strings.ToLower
unfoldable pub to_lower : Bytes → Bytes
unfolding lower
to_lower = map lower
