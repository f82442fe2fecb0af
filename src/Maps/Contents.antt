-- ===== src/Maps/Contents.antt =====
-- The contents of a Go map: the view that forgets the order of the entries, in which a `range` loop may
-- visit them.
use mathlib.Core.Option
use mathlib.Core.Quot
use mathlib.Core.Quot.{Quot, Quot-set}
use builder.Base.{◌≡◌, refl, [], ◌∷◌, Bytes, arith}
use builder.Maps.{Map, lookup}

-- Each key has the same value in both, or is in neither.
abbrev pub SameEntries : {V : Type 0} → Map V → Map V → Type 0
SameEntries m n = (k : Bytes) → lookup k m ≡ lookup k n

abbrev pub Contents : Type 0 → Type 0
Contents V = Quot (SameEntries {V = V})

abbrev pub contents : {V : Type 0} → Map V → Contents V
contents m = Quot.mk m

module _ {V U : Type 0} (f : V → U) where
  -- The function on each value.
  map_values : Map V → Map U
  map_values [] = []
  map_values ((k, v) ∷ m) = (k, f v) ∷ map_values m

  lookup-map_values : (k : Bytes) (m : Map V) → lookup k (map_values m) ≡ Option.map f (lookup k m)
  unfolding map_values lookup
  lookup-map_values k [] = refl
  lookup-map_values k ((j, v) ∷ m) = ground (arith, lookup-map_values k m)

  pub map_contents : Contents V → Contents U
  map_contents =
      Quot.lift Quot-set (λ m. contents (map_values m))
        (λ m n same. Quot.sound (λ k. rw (lookup-map_values k m, lookup-map_values k n, same k)))

  -- A map has those contents where its lookups are the function of the other's.
  pub map_contents_iff :
      (m : Map V) (n : Map U)
      → ((k : Bytes) → lookup k n ≡ Option.map f (lookup k m))
      → contents n ≡ map_contents (contents m)
  unfolding map_contents
  map_contents_iff m n h = Quot.sound (λ k. rw (h k, lookup-map_values k m))
