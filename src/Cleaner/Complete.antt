-- ===== src/Cleaner/Complete.antt =====
-- What a round does for an app that is gone.
use builder.Cleaner.Diff.{member-get_diff}
use builder.Cleaner.Round.{Listed}
use builder.Base.{
  All, err, ap, Bool-cases, if◌then◌else◌, ok, Result, none, Option, arith, inr, inl, Bytes, map,
  ◌++◌, ◌∷◌, [], List, false, true, ◌⊎◌, refl, ◌≡◌,
}
use builder.Text.Equality.{eqb_sound, eqb, eqb_refl}
use builder.Text.{to_lower}
use builder.Cleaner.{
  get_diff, run_round, removed_dir, deleted_object, git_regex_matches, delete_from_storage,
  delete_apps, delete_matching, DirEntry, dir_has_git_suffix, strip_suffixes, select_dirs,
  dot_git_suffix, Action,
}
use builder.Sys.Path.{filepath_join}
use builder.Cleaner.Members.{member}
use builder.Cleaner.Selected.{member-map, among}

-- The action is done.
abbrev pub Done : Action → List Action → Type 0
Done a [] = ⊥
Done a (x ∷ rest) = (x ≡ a) ⊎ Done a rest

Done-append : (a : Action) (xs ys : List Action) → Done a xs ⊎ Done a ys → Done a (xs ++ ys)
Done-append a [] ys (inl h) = absurd h
Done-append a [] ys (inr h) = h
Done-append a (x ∷ xs) ys (inl (inl e)) = inl e
Done-append a (x ∷ xs) ys (inl (inr h)) = inr (Done-append a xs ys (inl h))
Done-append a (x ∷ xs) ys (inr h) = inr (Done-append a xs ys (inr h))

-- The objects whose names match the expression of the app.
pub matching : Bytes → List Bytes → List Bytes
matching app [] = []
matching app (o ∷ objs) =
    let rest = matching app objs in if git_regex_matches app o then o ∷ rest else rest

abbrev pub listed_objects : {E : Type 0} → Result E (List Bytes) → List Bytes
listed_objects (err e) = []
listed_objects (ok objs) = objs

module _ {E : Type 0} (git_home : Bytes) (objects : Bytes → Result E (List Bytes))
    (fails : Bytes → Bytes → Option E) where
  delete_matching-Done :
      (app obj : Bytes) (objs : List Bytes)
      → ((o : Bytes) → fails app o ≡ none)
      → git_regex_matches app obj ≡ true
      → member obj objs ≡ true
      → Done (deleted_object obj) (delete_matching app (fails app) objs).0
  unfolding delete_matching member
  delete_matching-Done app obj [] fine match h = cc
  delete_matching-Done app obj (o ∷ objs) fine match h = elim (Bool-cases (eqb o obj)) [
    | inl same ↦
        let matched : git_regex_matches app o ≡ true = rw (eqb_sound o obj same) match in
        rw (matched, fine o, delete_matching) (inl (ap deleted_object (eqb_sound o obj same)))
    | inr other ↦
        let rest = delete_matching-Done app obj objs fine match (ground arith) in
        elim (Bool-cases (git_regex_matches app o)) [
          | inl matched ↦ rw (matched, fine o, delete_matching) (inr rest)
          | inr unmatched ↦ rw (unmatched, delete_matching) rest
        ]
  ]

  storage-Done :
      (app obj : Bytes) (objs : List Bytes)
      → objects app ≡ ok objs
      → ((o : Bytes) → fails app o ≡ none)
      → git_regex_matches app obj ≡ true
      → member obj objs ≡ true
      → Done (deleted_object obj) (delete_from_storage app (objects app) (fails app)).0
  unfolding delete_from_storage
  storage-Done app obj objs listed fine match h =
      rw (listed, delete_from_storage) (delete_matching-Done app obj objs fine match h)

  -- What is done for an app.
  delete_apps-Done :
      (app obj : Bytes) (objs apps : List Bytes)
      → member app apps ≡ true
      → Done
          (removed_dir (filepath_join git_home (app ++ dot_git_suffix)))
          (delete_apps git_home objects fails apps)
        × (objects app ≡ ok objs
            → ((o : Bytes) → fails app o ≡ none)
            → git_regex_matches app obj ≡ true
            → member obj objs ≡ true
            → Done (deleted_object obj) (delete_apps git_home objects fails apps))
  unfolding delete_apps member
  delete_apps-Done app obj objs [] h = cc
  delete_apps-Done app obj objs (x ∷ apps) h = elim (Bool-cases (eqb x app)) [
    | inl same ↦ (
      inl (
          ap (λ (y : Bytes). removed_dir (filepath_join git_home (y ++ dot_git_suffix)))
            (eqb_sound x app same)),
      λ listed fine match h. inr (
          Done-append _ _ _ (
            inl (
              storage-Done x obj objs (rw (eqb_sound x app same) listed)
                (λ o. rw (eqb_sound x app same) (fine o)) (rw (eqb_sound x app same) match) h))),
    )
    | inr other ↦
        let (dir, rest) = delete_apps-Done app obj objs apps (ground arith) in
        (
          inr (Done-append _ _ _ (inr dir)),
          λ listed fine match h. inr (Done-append _ _ _ (inr (rest listed fine match h))),
        )
  ]

  delete_apps-All :
      (app : Bytes) (objs wanted apps : List Bytes)
      → member app apps ≡ true
      → objects app ≡ ok objs
      → ((o : Bytes) → fails app o ≡ none)
      → ((o : Bytes) → member o wanted ≡ true → member o objs ≡ true)
      → All
          (λ obj. Done (deleted_object obj) (delete_apps git_home objects fails apps))
          (matching app wanted)
  unfolding matching member
  delete_apps-All app objs [] apps h listed fine up = tt
  delete_apps-All app objs (o ∷ wanted) apps h listed fine up =
      let rest =
        delete_apps-All app objs wanted apps h listed fine λ x k. up x (ground (arith, k)) in
      elim (Bool-cases (git_regex_matches app o)) [
        | inl matched ↦
            rw (matched, matching)
              (
                (delete_apps-Done app o objs apps h).1 listed fine matched
                    (up o (ground (arith, eqb_refl o))),
                rest,
              )
        | inr unmatched ↦ rw (unmatched, matching) rest
      ]

  -- In a round whose two lists succeed, for an app that is the name in lower case of a listed directory
  -- and not that of a namespace in lower case, where none of its objects fails to be deleted: its
  -- directory is removed, and where its objects can be listed each of them that matches the app's
  -- expression is deleted.
  pub run_round-Done :
      (nss : List Bytes) (entries : List DirEntry) (app : Bytes)
      → to_lower app ≡ app
      → Listed (app ++ dot_git_suffix) entries
      → member app (map to_lower nss) ≡ false
      → ((o : Bytes) → fails app o ≡ none)
      → Done
          (removed_dir (filepath_join git_home (app ++ dot_git_suffix)))
          (run_round git_home (ok nss) (ok entries) objects fails).0
        × All
            (λ obj.
              Done (deleted_object obj) (run_round git_home (ok nss) (ok entries) objects fails).0)
            (matching app (listed_objects (objects app)))
  unfolding run_round matching
  run_round-Done nss entries app low listed gone fine =
      ((delete_apps-Done app [] [] apps found).0, by_list (objects app) refl)
    where
      apps : List Bytes
      apps = get_diff nss (strip_suffixes (select_dirs entries dir_has_git_suffix) dot_git_suffix)

      found : member app apps ≡ true
      found = ground (
        arith,
        member-get_diff app nss
            (strip_suffixes (select_dirs entries dir_has_git_suffix) dot_git_suffix),
        member-map app (strip_suffixes (select_dirs entries dir_has_git_suffix) dot_git_suffix) low
            (among app entries listed),
        gone,
      )

      by_list :
          (r : Result E (List Bytes))
          → objects app ≡ r
          → All
              (λ obj. Done (deleted_object obj) (delete_apps git_home objects fails apps))
              (matching app (listed_objects r))
      by_list (err e) is = tt
      by_list (ok objs) is = delete_apps-All app objs objs apps found is fine (λ o h. h)
