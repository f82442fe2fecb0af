-- ===== src/Cleaner/Rounds/Examples/Uploads.antt =====
-- A round after an app with a build has lost its namespace.
use builder.Base.{Bytes, codes, true, false, ◌≡◌, refl, List, [], ◌∷◌, ◌++◌, ok, err, All, map}
use builder.Text.{to_lower}
use builder.Text.Equality.{eqb}
use builder.Cleaner.Members.{member}
use builder.Cleaner.{dot_git_suffix, git_regex_matches}
use builder.Cleaner.Uploads.{IsDeletedUpload, build-IsDeletedUpload}
use builder.Gitreceive.Build.{build}
use builder.Gitreceive.Samples.{conf, build_calls}
use builder.Cleaner.Rounds.{round, rounds, delete_all, delete_app_objects, delete_objects}
use builder.Cleaner.Rounds.InMemory.{
  in_memory_directory, in_memory_store, in_memory_directory_lem, in_memory_store_lem,
}
use builder.Cleaner.Rounds.Examples.{home, never_fails, start}

-- The app `blog` has lost its namespace.
abbrev shop : List Bytes
shop = codes "shop" ∷ []

shop_clean :
    (round
      (in_memory_directory never_fails home)
      (in_memory_store never_fails)
      home
      (ok shop)
      start).1
    ≡ []
unfolding round delete_all delete_app_objects delete_objects in_memory_directory in_memory_store
    builder.Cleaner.local_dirs builder.Cleaner.get_diff builder.Cleaner.strip_suffixes eqb
    builder.Cleaner.dir_has_git_suffix builder.Text.has_suffix builder.Maps.has_key
    builder.Maps.lookup builder.Maps.insert to_lower builder.Text.last_index builder.Text.has_prefix
    builder.Text.lower builder.Cleaner.app_tokens builder.Sys.Path.filepath_join
    builder.Cleaner.git_regex_matches builder.Cleaner.lower_names builder.Cleaner.missing_dirs
    builder.Cleaner.select_dirs builder.Cleaner.strip_suffix builder.Cleaner.tokens_match
shop_clean = refl

blog_here : member (codes "blog" ++ dot_git_suffix) start.dirs ≡ true
unfolding member eqb
blog_here = refl

blog_lower : to_lower (codes "blog") ≡ codes "blog"
unfolding to_lower builder.Text.lower
blog_lower = refl

blog_gone : member (codes "blog") (map to_lower shop) ≡ false
unfolding member eqb to_lower builder.Text.lower
blog_gone = refl

build-IsDeletedUpload_example :
    All
      (IsDeletedUpload member (
        rounds
          (in_memory_directory never_fails home)
          (in_memory_store never_fails)
          home
          (err 7 ∷ ok shop ∷ [])
          (round
            (in_memory_directory never_fails home)
            (in_memory_store never_fails)
            home
            (ok shop)
            start).0))
      (build build_calls conf (codes "0123456789abcdef0123456789abcdef01234567")).0
build-IsDeletedUpload_example =
    build-IsDeletedUpload (in_memory_directory never_fails home) (in_memory_store never_fails) home
      (in_memory_directory_lem never_fails home) (in_memory_store_lem never_fails) build_calls conf
      (codes "blog") (codes "0123456789abcdef0123456789abcdef01234567") shop (err 7 ∷ ok shop ∷ [])
      start refl blog_lower blog_here blog_gone shop_clean (tt, ((λ x h. h), tt))
