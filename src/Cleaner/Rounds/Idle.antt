-- ===== src/Cleaner/Rounds/Idle.antt =====
-- Rounds where no repository is in the home of git, as between pushes: `git.Receive` removes the repository
-- when it returns.
use builder.Base.{
  All, Bytes, Bool, false, List, [], ◌∷◌, ◌++◌, Result, ok, err, ◌≡◌, refl, inl, inr, Result-cases,
}
use builder.Cleaner.{DirEntry, dot_git_suffix}
use builder.Cleaner.Round.{IsGone, get_diff-IsGone}
use builder.Cleaner.Rounds.{
  ObjectStore, Directory, IsObjectStore, IsDirectory, World, delete_all, round, rounds,
}
use builder.Cleaner.Rounds.Apps.{gone_apps, Listed-is_listed}
use builder.Cleaner.Rounds.Settled.{round_lem, round_failed}

-- No app has a directory.
abbrev pub IsIdle : {D : Type 0} → (Bytes → D → Bool) → D → Type 0
IsIdle has_dir dirs = (d : Bytes) → has_dir (d ++ dot_git_suffix) dirs ≡ false

module _ {D S E : Type 0} (home : Directory D E) (store : ObjectStore S E) (git_home : Bytes)
    {has_dir : Bytes → D → Bool} {has_object : Bytes → S → Bool}
    (is_home : IsDirectory home git_home has_dir) (is_store : IsObjectStore store has_object) where
  none-IsGone :
      (nss : List Bytes) (w : World D S) (es : List DirEntry) (apps : List Bytes)
      → home.read_dir w.dirs ≡ ok es
      → IsIdle has_dir w.dirs
      → All (IsGone git_home nss es) apps
      → apps ≡ []
  none-IsGone nss w es [] listed idle gone = refl
  none-IsGone nss w es (app ∷ apps) listed idle ((absent, (d, same, there)), rest) = absurd (
      cc (
        idle d,
        is_home.read_has w.dirs es listed (d ++ dot_git_suffix),
        Listed-is_listed (d ++ dot_git_suffix) es there,
      ))

  round-idle :
      (answer : Result E (List Bytes)) (w : World D S)
      → IsIdle has_dir w.dirs
      → (round home store git_home answer w).0 ≡ w
  unfolding delete_all
  round-idle (err e) w idle = unfold round in refl
  round-idle (ok nss) w idle = elim (Result-cases (home.read_dir w.dirs)) [
    | inl (e, failed) ↦ rw (round_failed home store git_home is_home is_store nss w e failed)
    | inr (es, listed) ↦
        rw (round_lem home store git_home is_home is_store nss w es listed) (
          rw
            (none-IsGone nss w es (gone_apps nss es) listed idle (get_diff-IsGone git_home nss es)))
  ]

  -- While no app has a directory in the home of git, no round changes anything: an object of an app that has
  -- lost its namespace stays, whatever the lists of namespaces say.
  pub rounds-IsIdle :
      (answers : List (Result E (List Bytes))) (w : World D S)
      → IsIdle has_dir w.dirs
      → rounds home store git_home answers w ≡ w
  unfolding rounds
  rounds-IsIdle [] w idle = refl
  rounds-IsIdle (answer ∷ answers) w idle =
      rw (round-idle answer w idle) (rounds-IsIdle answers w idle)
