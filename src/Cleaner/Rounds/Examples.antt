-- ===== src/Cleaner/Rounds/Examples.antt =====
-- Concrete rounds.
mod Uploads
use builder.Base.{
  Bytes, codes, true, false, ◌≡◌, refl, ℕ, List, [], ◌∷◌, ◌++◌, none, some, Option, Result, ok, err,
  All, map, arith, if◌then◌else◌, Bool-cases, inl, inr, ap,
}
use builder.Text.{to_lower}
use builder.Text.Equality.{eqb}
use builder.Cleaner.Members.{member}
use builder.Cleaner.{dot_git_suffix, git_regex_matches}
use builder.Cleaner.Round.{same_app}
use builder.Cleaner.Rounds.{World, round, rounds, delete_all, delete_app_objects, delete_objects}
use builder.Cleaner.Rounds.Gone.{IsCleared}
use builder.Cleaner.Rounds.Settled.{IsUnchanged, KeepsNamespaces, rounds_lem}
use builder.Cleaner.Rounds.Kept.{IsAs, rounds-IsAs}
use builder.Cleaner.Rounds.InMemory.{
  in_memory_directory, in_memory_store, in_memory_directory_lem, in_memory_store_lem,
}

abbrev pub home : Bytes
home = codes "/home/git"

abbrev pub never_fails : Bytes → Option ℕ
never_fails x = none

-- The objects of the app `gone` cannot be deleted.
abbrev stuck_object : Bytes
stuck_object = codes "/home/gone:git-01234567"

abbrev fails : Bytes → Option ℕ
fails x = if eqb x stuck_object then some 5 else none

abbrev pub start : World (List Bytes) (List Bytes)
start = record {
  dirs = codes "blog.git" ∷ codes "gone.git" ∷ [];
  objects = stuck_object ∷ codes "/home/blog:git-01234567" ∷ [];
}

abbrev nss : List Bytes
nss = codes "blog" ∷ []

abbrev more : List Bytes
more = codes "shop" ∷ codes "blog" ∷ []

abbrev answers : List (Result ℕ (List Bytes))
answers = ok more ∷ err 7 ∷ ok nss ∷ []

clean :
    (round
      (in_memory_directory never_fails home)
      (in_memory_store never_fails)
      home
      (ok nss)
      start).1
    ≡ []
unfolding round delete_all delete_app_objects delete_objects in_memory_directory in_memory_store
    builder.Cleaner.local_dirs builder.Cleaner.get_diff builder.Cleaner.strip_suffixes eqb
    builder.Cleaner.dir_has_git_suffix builder.Text.has_suffix builder.Maps.has_key
    builder.Maps.lookup builder.Maps.insert to_lower builder.Text.last_index builder.Text.has_prefix
    builder.Text.lower builder.Cleaner.app_tokens builder.Sys.Path.filepath_join
    builder.Cleaner.git_regex_matches builder.Cleaner.lower_names builder.Cleaner.missing_dirs
    builder.Cleaner.select_dirs builder.Cleaner.strip_suffix builder.Cleaner.tokens_match
clean = refl

-- Between the later rounds a namespace comes, and one of the lists fails.
later : All (KeepsNamespaces nss) answers
unfolding member to_lower builder.Text.lower eqb
later = (λ x h. ground arith, (tt, (λ x h. h, tt)))

-- The app `gone` has a directory and no namespace, and `blog` has both.
rounds_lem_example :
    ((d : Bytes)
      → member (d ++ dot_git_suffix) start.dirs ≡ true
      → member (to_lower d) (map to_lower nss) ≡ false
      → IsCleared member member
          (to_lower d)
          (round
            (in_memory_directory never_fails home)
            (in_memory_store never_fails)
            home
            (ok nss)
            start).0)
    × IsUnchanged member
        (round
          (in_memory_directory never_fails home)
          (in_memory_store never_fails)
          home
          (ok nss)
          start).0
        (rounds
          (in_memory_directory never_fails home)
          (in_memory_store never_fails)
          home
          answers
          (round
            (in_memory_directory never_fails home)
            (in_memory_store never_fails)
            home
            (ok nss)
            start).0)
rounds_lem_example =
    rounds_lem (in_memory_directory never_fails home) (in_memory_store never_fails) home
      (in_memory_directory_lem never_fails home) (in_memory_store_lem never_fails) nss answers start
      clean later

abbrev blog_object : Bytes
blog_object = codes "/home/blog:git-01234567"

gone_not_blog : git_regex_matches (codes "gone") blog_object ≡ false
unfolding git_regex_matches
gone_not_blog = refl

blog_named :
    (rest : List Bytes)
    → member (to_lower (codes "blog")) (map to_lower (codes "blog" ∷ rest)) ≡ true
unfolding member eqb to_lower builder.Text.lower
blog_named rest = refl

gone_lower : to_lower (codes "gone") ≡ codes "gone"
unfolding to_lower builder.Text.lower
gone_lower = refl

-- Of the two directories, only that of `blog` has an app whose expression matches its object.
others_named :
    (x : Bytes)
    → member (x ++ dot_git_suffix) start.dirs ≡ true
    → git_regex_matches (to_lower x) blog_object ≡ true
    → member (to_lower x) (map to_lower nss) ≡ true
unfolding member
others_named x h match =
    elim (Bool-cases (eqb (codes "blog" ++ dot_git_suffix) (x ++ dot_git_suffix))) [
      | inl blog ↦ rw (← same_app (codes "blog") x blog) (blog_named [])
      | inr other ↦
          let gone : codes "gone" ≡ x = same_app (codes "gone") x (ground (arith, h, other)) in
          absurd (
            cc (
              gone_not_blog,
              match,
              ap (λ (y : Bytes). git_regex_matches (to_lower y) blog_object) gone,
              ap (λ (y : Bytes). git_regex_matches y blog_object) gone_lower,
            ))
    ]

there : IsAs member (codes "blog") blog_object member true true start
unfolding member eqb
there = (refl, refl)

rounds-IsAs_example : IsAs member (codes "blog") blog_object member true true (
    rounds
      (in_memory_directory fails home)
      (in_memory_store fails)
      home
      (ok nss ∷ err 7 ∷ [])
      start)
rounds-IsAs_example =
    rounds-IsAs (in_memory_directory fails home) (in_memory_store fails) home
      (in_memory_directory_lem fails home) (in_memory_store_lem fails) (codes "blog") blog_object
      true true (ok nss ∷ err 7 ∷ []) start ((blog_named [], others_named), (tt, tt)) there
