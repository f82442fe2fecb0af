-- ===== src/Maps.antt =====
-- Go's `map[string]V` as an association list. The order of the entries stands for the order in which
-- a `range` loop happens to visit them.
pub mod Contents
use builder.Base.{◌≡◌, refl, Bool, Option, none, some, List, [], ◌∷◌, arith, Bytes, if◌then◌else◌}
use builder.Text.Equality.{eqb, eqb_iff}

abbrev pub Map {ℓ} : Type ℓ → Type ℓ
Map V = List (Bytes × V)

module _ {ℓ} {V : Type ℓ} where
  -- v, ok := m[k]
  unfoldable pub lookup : Bytes → Map V → Option V
  lookup k [] = none
  lookup k ((j, v) ∷ m) = if eqb j k then some v else lookup k m

  -- m[k] = v
  unfoldable pub insert : Bytes → V → Map V → Map V
  insert k v [] = (k, v) ∷ []
  insert k v ((j, w) ∷ m) = if eqb j k then (k, v) ∷ m else (j, w) ∷ insert k v m

  -- delete(m, k)
  unfoldable pub delete : Bytes → Map V → Map V
  delete k [] = []
  delete k ((j, v) ∷ m) = let rest = delete k m in if eqb j k then rest else (j, v) ∷ rest

  pub lookup-insert :
      (k j : Bytes) (v : V) (m : Map V)
      → lookup j (insert k v m) ≡ (if eqb k j then some v else lookup j m)
  unfolding lookup insert
  lookup-insert k j v [] = refl
  lookup-insert k j v ((i, w) ∷ m) =
      ground (arith, eqb_iff k j, eqb_iff i k, eqb_iff i j, lookup-insert k j v m)

  pub lookup-delete :
      (k j : Bytes) (m : Map V) → lookup j (delete k m) ≡ (if eqb k j then none else lookup j m)
  unfolding lookup delete
  lookup-delete k j [] = ground arith
  lookup-delete k j ((i, w) ∷ m) =
      ground (arith, eqb_iff k j, eqb_iff i k, eqb_iff i j, lookup-delete k j m)

-- _, ok := m[k]
unfoldable pub has_key {ℓ} : {V : Type ℓ} → Bytes → Map V → Bool
has_key k m = elim (lookup k m) [ none ↦ Bool.false | some v ↦ Bool.true ]

-- m[k] of a map of strings, the zero value where the key is missing
unfoldable pub get : Bytes → Map Bytes → Bytes
get k m = elim (lookup k m) [ none ↦ [] | some v ↦ v ]
