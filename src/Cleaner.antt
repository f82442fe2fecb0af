-- ===== src/Cleaner.antt =====
-- pkg/cleaner/cleaner.go: what is left of apps whose namespace is gone is deleted. A call that changes
-- the file system or the object store is an action; a failure of one is an argument of the model, and
-- the program only logs it.
pub mod Members
pub mod Diff
pub mod Round
pub mod Selected
pub mod Complete
pub mod Rounds
pub mod Uploads
mod Examples
use builder.Text.Equality.{eqb}
use builder.Base.{
  ◌>>=◌, replicate, take, length, if◌then◌else◌, ◌==◌, err, ok, Result, codes, Bytes, map, ◌++◌,
  ◌∷◌, [], List, some, none, Option, ◌||◌, ◌&&◌, not, false, true, Bool, ℕ,
}
use builder.Sys.Path.{filepath_join}
use builder.Text.{has_suffix, last_index, to_lower}
use builder.Maps.{Map, insert, has_key}

abbrev pub dot_git_suffix : Bytes
dot_git_suffix = codes ".git"

-- os.DirEntry
pub record DirEntry : Type 0 where
  pub name : Bytes
  pub is_dir : Bool

-- The loop of `localDirs`.
pub select_dirs : List DirEntry → (Bytes → Bool) → List Bytes
select_dirs [] filter = []
select_dirs (entry ∷ entries) filter =
    let nm = entry.name in
    let rest = select_dirs entries filter in
    if length nm == 0 || (eqb nm (codes ".") || not entry.is_dir)
    then rest
    else if filter nm
    then nm ∷ rest
    else rest

-- `read_dir` is what `os.ReadDir(gitHome)` gives.
unfoldable pub local_dirs :
    {E : Type 0} → Result E (List DirEntry) → (Bytes → Bool) → Result E (List Bytes)
unfolding select_dirs
local_dirs read_dir filter = do entries ← read_dir; ok (select_dirs entries filter)

-- The set of namespace names in lower case, added to a set.
pub lower_names : List Bytes → Map (Unit {0}) → Map (Unit {0})
lower_names [] names = names
lower_names (ns ∷ rest) names = lower_names rest (insert (to_lower ns) tt names)

pub missing_dirs : Map (Unit {0}) → List Bytes → List Bytes
missing_dirs names [] = []
missing_dirs names (dir ∷ dirs) =
    let rest = missing_dirs names dirs in
    if not (has_key (to_lower dir) names) then to_lower dir ∷ rest else rest

-- `getDiff`
unfoldable pub get_diff : List Bytes → List Bytes → List Bytes
unfolding lower_names missing_dirs
get_diff namespace_list dirs = missing_dirs (lower_names namespace_list []) dirs

-- What `stripSuffixes` makes of one text; the index is in range, so the slice is `take`.
pub strip_suffix : Bytes → Bytes → Bytes
strip_suffix str suffix = elim (last_index str suffix) [ none ↦ str | some idx ↦ take idx str ]

unfoldable pub strip_suffixes : List Bytes → Bytes → List Bytes
unfolding strip_suffix
strip_suffixes strs suffix = map (λ str. strip_suffix str suffix) strs

pub dir_has_git_suffix : Bytes → Bool
dir_has_git_suffix dir = has_suffix dir dot_git_suffix

-- A regular expression that is a row of characters, of which some may be any but a newline.
pub data Token : Type 0 where
  literal : ℕ → Token
  any : Token

-- `app` in a regular expression, where it is written as it is: a dot stands for any character. Its other
-- characters stand for themselves, if they are letters, digits, dashes and underscores.
app_tokens : Bytes → List Token
app_tokens [] = []
app_tokens (c ∷ s) = (if c == b'.' then any else literal c) ∷ app_tokens s

-- The whole text matches.
tokens_match : List Token → Bytes → Bool
tokens_match [] [] = true
tokens_match [] (c ∷ s) = false
tokens_match (t ∷ ts) [] = false
tokens_match (literal d ∷ ts) (c ∷ s) = (c == d) && tokens_match ts s
tokens_match (any ∷ ts) (c ∷ s) = not (c == 10) && tokens_match ts s

-- `gitRegex.MatchString`, for ^/home/APP:git-.{8}$
unfoldable pub git_regex_matches : Bytes → Bytes → Bool
unfolding app_tokens tokens_match
git_regex_matches app obj =
    tokens_match
      (map literal (codes "/home/")
        ++ (app_tokens app ++ (map literal (codes ":git-") ++ replicate 8 any)))
      obj

pub data Action : Type 0 where
  -- fs.RemoveAll
  removed_dir : Bytes → Action
  -- storageDriver.Delete
  deleted_object : Bytes → Action

-- The loop of `deleteFromStorage`, where `fails` says of which object the deletion fails: the loop ends
-- there.
delete_matching : {E : Type 0} → Bytes → (Bytes → Option E) → List Bytes → List Action × Option E
delete_matching app fails [] = ([], none)
delete_matching app fails (obj ∷ objs) =
    let (actions, failure) = delete_matching app fails objs in
    if git_regex_matches app obj
    then elim (fails obj) [
      | some e ↦ (deleted_object obj ∷ [], some e)
      | none ↦ (deleted_object obj ∷ actions, failure)
    ]
    else (actions, failure)

-- `objects` is what `storageDriver.List` gives.
unfoldable pub delete_from_storage :
    {E : Type 0} → Bytes → Result E (List Bytes) → (Bytes → Option E) → List Action × Option E
unfolding delete_matching
delete_from_storage app (err e) fails = ([], some e)
delete_from_storage app (ok objs) fails = delete_matching app fails objs

-- The loop of a round over the apps to delete; `objects` and `fails` are as above, at each app.
delete_apps :
    {E : Type 0}
    → Bytes
    → (Bytes → Result E (List Bytes))
    → (Bytes → Bytes → Option E)
    → List Bytes
    → List Action
unfolding delete_from_storage filepath_join
delete_apps git_home objects fails [] = []
delete_apps git_home objects fails (app ∷ apps) =
    removed_dir (filepath_join git_home (app ++ dot_git_suffix))
    ∷ ((delete_from_storage app (objects app) (fails app)).0
        ++ delete_apps git_home objects fails apps)

-- One round of the loop of `Run`: what is done, and whether the loop sleeps before the next round.
unfoldable pub run_round :
    {E : Type 0}
    → Bytes
    → Result E (List Bytes)
    → Result E (List DirEntry)
    → (Bytes → Result E (List Bytes))
    → (Bytes → Bytes → Option E)
    → List Action × Bool
unfolding delete_apps local_dirs dir_has_git_suffix
run_round git_home (err e) read_dir objects fails = ([], false)
run_round git_home (ok ns_list) read_dir objects fails =
    elim (local_dirs read_dir dir_has_git_suffix) [
      | err e ↦ ([], false)
      | ok git_dirs ↦ (
        delete_apps git_home objects fails
            (get_diff ns_list (strip_suffixes git_dirs dot_git_suffix)),
        true,
      )
    ]
