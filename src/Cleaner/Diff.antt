-- ===== src/Cleaner/Diff.antt =====
-- Which apps are to be deleted.
use builder.Text.Equality.{eqb_iff}
use builder.Base.{
  ◌||◌, Bytes, arith, map, ◌∷◌, [], List, ◌&&◌, not, false, true, Bool, ◌≢◌, ◌∙◌, ap, refl, ◌≡◌, ℕ,
}
use builder.Text.{to_lower, lower}
use builder.Maps.{Map, lookup, insert, lookup-insert, has_key}
use builder.Cleaner.{lower_names, missing_dirs, get_diff}
use builder.Cleaner.Members.{member}

has_key-lower_names :
    (x : Bytes) (nss : List Bytes) (names : Map (Unit {0}))
    → has_key x (lower_names nss names) ≡ (member x (map to_lower nss) || has_key x names)
unfolding has_key lower_names member
has_key-lower_names x [] names = refl
has_key-lower_names x (ns ∷ nss) names = ground (
  arith,
  lookup-insert (to_lower ns) x tt names,
  has_key-lower_names x nss (insert (to_lower ns) tt names),
)

pub has_key-set :
    (x : Bytes) (nss : List Bytes) → has_key x (lower_names nss []) ≡ member x (map to_lower nss)
has_key-set x nss = ground (arith, has_key-lower_names x nss [], empty x)
  where
    empty : (k : Bytes) → has_key {V = Unit {0}} k [] ≡ false
    empty k = unfold has_key lookup in refl

member-missing_dirs :
    (x : Bytes) (names : Map (Unit {0})) (dirs : List Bytes)
    → member x (missing_dirs names dirs) ≡ (member x (map to_lower dirs) && not (has_key x names))
unfolding missing_dirs member
member-missing_dirs x names [] = refl
member-missing_dirs x names (d ∷ dirs) =
    ground (arith, member-missing_dirs x names dirs, eqb_iff (to_lower d) x)

-- An app is to be deleted exactly when it is the name of a directory in lower case and not the name of a
-- namespace in lower case.
pub member-get_diff :
    (x : Bytes) (nss dirs : List Bytes)
    → member x (get_diff nss dirs)
      ≡ (member x (map to_lower dirs) && not (member x (map to_lower nss)))
unfolding get_diff
member-get_diff x nss dirs =
    member-missing_dirs x (lower_names nss []) dirs
    ∙ ap (λ (b : Bool). member x (map to_lower dirs) && not b) (has_key-set x nss)

lower_idem : (c : ℕ) → lower (lower c) ≡ lower c
unfolding lower
lower_idem c = ground arith

pub to_lower_idem : (s : Bytes) → to_lower (to_lower s) ≡ to_lower s
unfolding to_lower
to_lower_idem [] = refl
to_lower_idem (c ∷ s) = cc (lower_idem c, to_lower_idem s)

member-map-to_lower :
    (x : Bytes) (dirs : List Bytes) → member x (map to_lower dirs) ≡ true → to_lower x ≡ x
unfolding member
member-map-to_lower x [] h = cc
member-map-to_lower x (d ∷ dirs) h =
    ground (arith, eqb_iff (to_lower d) x, to_lower_idem d, member-map-to_lower x dirs)

-- A directory whose name has a capital letter is never removed, whether or not its app has a namespace:
-- what is to be deleted is in lower case.
pub get_diff-lower :
    (x : Bytes) (nss dirs : List Bytes) → to_lower x ≢ x → member x (get_diff nss dirs) ≡ false
get_diff-lower x nss dirs h = ground (arith, member-get_diff x nss dirs, member-map-to_lower x dirs)
