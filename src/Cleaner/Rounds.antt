-- ===== src/Cleaner/Rounds.antt =====
-- The loop of `Run` of pkg/cleaner/cleaner.go over many rounds, on a directory of repositories and an
-- object store that the rounds change: the calls of both are the operations of interfaces. The laws are
-- what their documentation says; a call may fail at any time.
pub mod Gone
pub mod Apps
pub mod Settled
pub mod Kept
pub mod Idle
pub mod InMemory
mod Examples
use builder.Base.{
  codes, Bytes, Bool, true, false, List, [], ◌∷◌, ◌++◌, ◌||◌, ◌&&◌, Option, some, none, Result, ok,
  err, ◌≡◌, if◌then◌else◌,
}
use builder.Text.Equality.{eqb}
use builder.Cleaner.Members.{member}
use builder.Cleaner.{
  DirEntry, dot_git_suffix, dir_has_git_suffix, get_diff, git_regex_matches, local_dirs,
  strip_suffixes,
}
use builder.Sys.Path.{filepath_join}

-- The directory of the store that `deleteFromStorage` lists.
abbrev pub storage_dir : Bytes
storage_dir = codes "home"

-- storagedriver.StorageDriver: List of a directory, and Delete.
pub record ObjectStore (S E : Type 0) : Type 0 where
  pub list : (dir : Bytes) → S → Result E (List Bytes)
  pub delete : Bytes → S → S × Option E

-- os.ReadDir of the directory of repositories, and sys.FS.RemoveAll.
pub record Directory (D E : Type 0) : Type 0 where
  pub read_dir : D → Result E (List DirEntry)
  pub remove_all : Bytes → D → D × Option E

-- A directory of that name is among the entries.
abbrev pub is_listed : Bytes → List DirEntry → Bool
is_listed name [] = false
is_listed name (e ∷ es) = (eqb e.name name && e.is_dir) || is_listed name es

-- `has` says whether there is an object of that name in the directory that is listed.
pub record IsObjectStore {S E : Type 0} (store : ObjectStore S E) (has : Bytes → S → Bool)
    : Type 0 where
  pub list_has :
      (s : S) (objs : List Bytes)
      → store.list storage_dir s ≡ ok objs
      → (o : Bytes) → member o objs ≡ has o s
  pub deleted :
      (x : Bytes) (s : S) → (store.delete x s).1 ≡ none → has x (store.delete x s).0 ≡ false
  -- A deletion, whether or not it fails, brings nothing back, and leaves other objects alone.
  pub delete_adds_nothing :
      (x o : Bytes) (s : S) → has o s ≡ false → has o (store.delete x s).0 ≡ false
  pub delete_other : (x o : Bytes) (s : S) → eqb x o ≡ false → has o (store.delete x s).0 ≡ has o s

-- `has` says whether there is a directory of that name in `git_home`.
pub record IsDirectory {D E : Type 0} (home : Directory D E) (git_home : Bytes)
    (has : Bytes → D → Bool) : Type 0 where
  pub read_has :
      (d : D) (es : List DirEntry)
      → home.read_dir d ≡ ok es
      → (name : Bytes) → is_listed name es ≡ has name d
  pub removed :
      (x : Bytes) (d : D)
      → (home.remove_all (filepath_join git_home x) d).1 ≡ none
      → has x (home.remove_all (filepath_join git_home x) d).0 ≡ false
  pub remove_adds_nothing :
      (x name : Bytes) (d : D)
      → has name d ≡ false
      → has name (home.remove_all (filepath_join git_home x) d).0 ≡ false
  pub remove_other :
      (x name : Bytes) (d : D)
      → eqb x name ≡ false
      → has name (home.remove_all (filepath_join git_home x) d).0 ≡ has name d

pub record World (D S : Type 0) : Type 0 where
  pub dirs : D
  pub objects : S

-- The error that is logged, if there is one.
abbrev pub logged : {E : Type 0} → Option E → List E
logged none = []
logged (some e) = e ∷ []

-- What follows a call that has not failed.
abbrev pub unless_failed : {S E : Type 0} → S × Option E → (S → S × Option E) → S × Option E
unless_failed (s, none) rest = rest s
unless_failed (s, some e) rest = (s, some e)

module _ {S E : Type 0} (store : ObjectStore S E) where
  -- The loop of `deleteFromStorage`.
  pub delete_objects : Bytes → List Bytes → S → S × Option E
  delete_objects app [] s = (s, none)
  delete_objects app (obj ∷ objs) s =
      let rest = delete_objects app objs in
      if git_regex_matches app obj then unless_failed (store.delete obj s) rest else rest s

  -- `deleteFromStorage`
  pub delete_app_objects : Bytes → S → S × Option E
  delete_app_objects app s = elim (store.list storage_dir s) [
    | err e ↦ (s, some e)
    | ok objs ↦ delete_objects app objs s
  ]

module _ {D S E : Type 0} (home : Directory D E) (store : ObjectStore S E) (git_home : Bytes) where
  -- The loop of a round over the apps to delete, and the errors that it logs.
  pub delete_all : List Bytes → World D S → World D S × List E
  delete_all [] w = (w, [])
  delete_all (app ∷ apps) w =
      let removal = home.remove_all (filepath_join git_home (app ++ dot_git_suffix)) w.dirs in
      let deletion = delete_app_objects store app w.objects in
      let rest = delete_all apps (record { dirs = removal.0; objects = deletion.0 }) in
      (rest.0, logged removal.1 ++ (logged deletion.1 ++ rest.1))

  -- One round, where `ns_list` is what `nsLister.List` gives.
  pub round : Result E (List Bytes) → World D S → World D S × List E
  round (err e) w = (w, e ∷ [])
  round (ok ns_list) w = elim (local_dirs (home.read_dir w.dirs) dir_has_git_suffix) [
    | err e ↦ (w, e ∷ [])
    | ok git_dirs ↦ delete_all (get_diff ns_list (strip_suffixes git_dirs dot_git_suffix)) w
  ]

  -- `Run`, for as many rounds as there are answers of the cluster: what is left after them.
  unfoldable pub rounds : List (Result E (List Bytes)) → World D S → World D S
  rounds [] w = w
  rounds (answer ∷ answers) w = rounds answers (round answer w).0
