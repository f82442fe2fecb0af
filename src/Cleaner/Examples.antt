-- ===== src/Cleaner/Examples.antt =====
-- A concrete cluster, git home and store.
use builder.Base.{
  ℕ, Bytes, codes, none, true, Option, List, [], ◌∷◌, All, Result, ok, err, ◌≡◌, refl,
}
use builder.Cleaner.{DirEntry, run_round}
use builder.Cleaner.Round.{IsOrphan, run_round-IsOrphan}
use builder.Cleaner.Members.{member}
use builder.Cleaner.Rounds.{World, rounds}
use builder.Cleaner.Rounds.Idle.{IsIdle, rounds-IsIdle}
use builder.Cleaner.Rounds.InMemory.{
  in_memory_directory, in_memory_store, in_memory_directory_lem, in_memory_store_lem,
}

abbrev namespaces : List Bytes
namespaces = codes "blog" ∷ codes "shop" ∷ []

abbrev entries : List DirEntry
entries =
    record { name = codes "blog.git"; is_dir = true }
    ∷ record { name = codes "gone.git"; is_dir = true }
    ∷ []

abbrev objects : Bytes → Result ℕ (List Bytes)
objects app = ok (codes "/home/gone:git-01234567" ∷ codes "/home/blog:git-01234567" ∷ [])

abbrev fails : Bytes → Bytes → Option ℕ
fails app obj = none

run_round-IsOrphan_example :
    All
      (IsOrphan (codes "/home/git") namespaces entries)
      (run_round (codes "/home/git") (ok namespaces) (ok entries) objects fails).0
run_round-IsOrphan_example = run_round-IsOrphan (codes "/home/git") namespaces entries objects fails

-- Between pushes the home of git is empty, and the app `gone` has an object and no namespace.
abbrev between_pushes : World (List Bytes) (List Bytes)
between_pushes = record { dirs = []; objects = codes "/home/gone:git-01234567" ∷ [] }

no_directory : IsIdle member between_pushes.dirs
unfolding member
no_directory d = refl

abbrev never_fails : Bytes → Option ℕ
never_fails x = none

rounds-IsIdle_example :
    rounds
      (in_memory_directory never_fails (codes "/home/git"))
      (in_memory_store never_fails)
      (codes "/home/git")
      (ok namespaces ∷ err 7 ∷ ok [] ∷ [])
      between_pushes
    ≡ between_pushes
rounds-IsIdle_example =
    rounds-IsIdle (in_memory_directory never_fails (codes "/home/git"))
      (in_memory_store never_fails) (codes "/home/git")
      (in_memory_directory_lem never_fails (codes "/home/git")) (in_memory_store_lem never_fails)
      (ok namespaces ∷ err 7 ∷ ok [] ∷ []) between_pushes no_directory
