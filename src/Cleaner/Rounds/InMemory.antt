-- ===== src/Cleaner/Rounds/InMemory.antt =====
-- A directory of repositories and an object store in memory, and the laws for them.
use builder.Base.{
  Bytes, true, false, List, [], ◌∷◌, Option, some, none, Result, ok, ◌≡◌, refl, sym, ◌∙◌, ==_refl,
  codes, map, ◌++◌, if◌then◌else◌, arith, ap,
}
use builder.Text.Equality.{eqb, eqb_iff, eqb_refl}
use builder.Cleaner.Members.{member}
use builder.Cleaner.{DirEntry}
use builder.Sys.Path.{filepath_join}
use builder.Cleaner.Rounds.{
  storage_dir, ObjectStore, Directory, IsObjectStore, IsDirectory, is_listed,
}

without : Bytes → List Bytes → List Bytes
without x [] = []
without x (y ∷ ys) = let rest = without x ys in if eqb y x then rest else y ∷ rest

member-without :
    (x o : Bytes) (ys : List Bytes)
    → member o (without x ys) ≡ (if eqb x o then false else member o ys)
unfolding without member
member-without x o [] = ground arith
member-without x o (y ∷ ys) =
    ground (arith, member-without x o ys, eqb_iff y x, eqb_iff y o, eqb_iff x o)

-- The names that are not removed by a call for the path `path`.
outside : Bytes → Bytes → List Bytes → List Bytes
outside git_home path [] = []
outside git_home path (y ∷ ys) =
    let rest = outside git_home path ys in
    if eqb (filepath_join git_home y) path then rest else y ∷ rest

eqb-append : (s t u : Bytes) → eqb (s ++ t) (s ++ u) ≡ eqb t u
unfolding eqb
eqb-append [] t u = refl
eqb-append (c ∷ s) t u = rw (==_refl c) (eqb-append s t u)

outside-without :
    (git_home x : Bytes) (ys : List Bytes)
    → outside git_home (filepath_join git_home x) ys ≡ without x ys
unfolding outside without filepath_join
outside-without git_home x [] = refl
outside-without git_home x (y ∷ ys) =
    rw (eqb-append git_home (codes "/" ++ y) (codes "/" ++ x), eqb-append (codes "/") y x)
      (rw (outside-without git_home x ys))

abbrev entry : Bytes → DirEntry
entry n = record { name = n; is_dir = true }

is_listed-map : (name : Bytes) (ns : List Bytes) → is_listed name (map entry ns) ≡ member name ns
unfolding member
is_listed-map name [] = refl
is_listed-map name (n ∷ ns) = ground (arith, is_listed-map name ns)

-- What a call leaves of the names `kept` if it fails, and of the names `left` if it does not.
abbrev unless : {E : Type 0} → Option E → List Bytes → List Bytes → List Bytes × Option E
unless none kept left = (left, none)
unless (some e) kept left = (kept, some e)

-- A call that is to remove `x`.
module _ {E : Type 0} (x : Bytes) where
  removed_lem :
      (f : Option E) (s : List Bytes)
      → (unless f s (without x s)).1 ≡ none
      → member x (unless f s (without x s)).0 ≡ false
  removed_lem none s h = ground (arith, member-without x x s, eqb_refl x)
  removed_lem (some e) s h = absurd (cc h)

  adds_nothing_lem :
      (f : Option E) (o : Bytes) (s : List Bytes)
      → member o s ≡ false
      → member o (unless f s (without x s)).0 ≡ false
  adds_nothing_lem none o s h = ground (arith, member-without x o s)
  adds_nothing_lem (some e) o s h = h

  other_lem :
      (f : Option E) (o : Bytes) (s : List Bytes)
      → eqb x o ≡ false
      → member o (unless f s (without x s)).0 ≡ member o s
  other_lem none o s h = ground (arith, member-without x o s)
  other_lem (some e) o s h = refl

ok_inj : {E A : Type 0} {a b : A} → ◌≡◌ {A = Result E A} (ok a) (ok b) → a ≡ b
ok_inj e = cc e

-- `fails` says of which name a removal fails, and with what.
module _ {E : Type 0} (fails : Bytes → Option E) where
  unfoldable pub in_memory_store : ObjectStore (List Bytes) E
  unfolding without
  in_memory_store = record {
    list = λ dir s. ok (if eqb dir storage_dir then s else []);
    delete = λ x s. unless (fails x) s (without x s);
  }

  unfoldable pub in_memory_directory : Bytes → Directory (List Bytes) E
  unfolding outside
  in_memory_directory git_home = record {
    read_dir = λ d. ok (map entry d);
    remove_all = λ path d. unless (fails path) d (outside git_home path d);
  }

  pub in_memory_store_lem : IsObjectStore in_memory_store member
  unfolding in_memory_store eqb
  in_memory_store_lem = record {
    list_has = λ s objs e o. ap (member o) (sym (ok_inj e));
    deleted = λ x s h. removed_lem x (fails x) s h;
    delete_adds_nothing = λ x o s h. adds_nothing_lem x (fails x) o s h;
    delete_other = λ x o s h. other_lem x (fails x) o s h;
  }

  pub in_memory_directory_lem :
      (git_home : Bytes) → IsDirectory (in_memory_directory git_home) git_home member
  unfolding in_memory_directory
  in_memory_directory_lem git_home = record {
    read_has = λ d es e name. ap (is_listed name) (sym (ok_inj e)) ∙ is_listed-map name d;
    removed = λ x d h. rw (outside-without git_home x d) (
        removed_lem x (fails (filepath_join git_home x)) d
          (rw (outside-without git_home x d) at h));
    remove_adds_nothing = λ x name d h.
        rw (outside-without git_home x d)
          (adds_nothing_lem x (fails (filepath_join git_home x)) name d h);
    remove_other = λ x name d h.
        rw (outside-without git_home x d) (other_lem x (fails (filepath_join git_home x)) name d h);
  }
