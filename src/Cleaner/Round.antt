-- ===== src/Cleaner/Round.antt =====
-- What a round deletes.
use builder.Text.Equality.{eqb, eqb_sound}
use builder.Base.{
  if◌then◌else◌, ◌==◌, codes, ◌||◌, not, All-if, All-append, Option-cases, Bool-cases, err, ok,
  arith, inr, inl, All, take_append, length, Result, Bytes, map, ◌++◌, ◌∷◌, [], List, some, Option,
  false, true, ◌⊎◌, refl, sym, ap, ◌∙◌, ◌≡◌,
}
use builder.Text.{has_suffix, last_index, has_prefix, to_lower}
use builder.Text.Trim.{has_suffix_sound}
use builder.Maps.{has_key}
use builder.Cleaner.{
  dot_git_suffix, DirEntry, select_dirs, lower_names, missing_dirs, get_diff, strip_suffix,
  strip_suffixes, dir_has_git_suffix, git_regex_matches, Action, removed_dir, deleted_object,
  delete_matching, delete_from_storage, delete_apps, run_round,
}
use builder.Sys.Path.{filepath_join}
use builder.Cleaner.Members.{member}
use builder.Cleaner.Diff.{has_key-set}

last_index-suffix : (d : Bytes) → last_index (d ++ dot_git_suffix) dot_git_suffix ≡ some (length d)
unfolding last_index has_prefix eqb
last_index-suffix [] = refl
last_index-suffix (c ∷ d) = rw (last_index-suffix d)

pub strip_suffix-append : (d : Bytes) → strip_suffix (d ++ dot_git_suffix) dot_git_suffix ≡ d
unfolding strip_suffix
strip_suffix-append d =
    rw (strip_suffix, last_index-suffix d) (take_append d dot_git_suffix (length d) refl)

-- Two directories of one name are those of one app.
pub same_app : (a b : Bytes) → eqb (a ++ dot_git_suffix) (b ++ dot_git_suffix) ≡ true → a ≡ b
same_app a b h =
    sym (strip_suffix-append a)
    ∙ (ap (λ (s : Bytes). strip_suffix s dot_git_suffix)
          (eqb_sound (a ++ dot_git_suffix) (b ++ dot_git_suffix) h)
        ∙ strip_suffix-append b)

unstripped :
    (nm : Bytes)
    → has_suffix nm dot_git_suffix ≡ true
    → strip_suffix nm dot_git_suffix ++ dot_git_suffix ≡ nm
unstripped nm h = let (r, e) = has_suffix_sound nm dot_git_suffix h in rw (e, strip_suffix-append r)

-- A directory of that name was listed.
abbrev pub Listed : Bytes → List DirEntry → Type 0
Listed name [] = ⊥
Listed name (e ∷ es) = ((e.name ≡ name) × (e.is_dir ≡ true)) ⊎ Listed name es

module _ (git_home : Bytes) (nss : List Bytes) (entries : List DirEntry) where
  -- An app that is the name in lower case of a directory `d.git`, and not that of a namespace.
  abbrev pub IsGone : Bytes → Type 0
  IsGone app =
      (member app (map to_lower nss) ≡ false)
      × ((d : Bytes) × (app ≡ to_lower d) × Listed (d ++ dot_git_suffix) entries)

  abbrev pub IsOrphan : Action → Type 0
  IsOrphan (removed_dir path) =
      (app : Bytes) × (path ≡ filepath_join git_home (app ++ dot_git_suffix)) × IsGone app
  IsOrphan (deleted_object obj) = (app : Bytes) × (git_regex_matches app obj ≡ true) × IsGone app

  IsRepo : Bytes → Type 0
  IsRepo nm = (has_suffix nm dot_git_suffix ≡ true) × Listed nm entries

  select_dirs-IsRepo :
      (es : List DirEntry)
      → ((nm : Bytes) → Listed nm es → Listed nm entries)
      → All IsRepo (select_dirs es dir_has_git_suffix)
  unfolding select_dirs IsRepo dir_has_git_suffix
  select_dirs-IsRepo [] up = tt
  select_dirs-IsRepo (e ∷ es) up =
      let tail = select_dirs es dir_has_git_suffix in
      let rest = select_dirs-IsRepo es (λ nm l. up nm (inr l)) in
      All-if IsRepo (length e.name == 0 || (eqb e.name (codes ".") || not e.is_dir)) tail
        (if dir_has_git_suffix e.name then e.name ∷ tail else tail) (λ _. rest)
        λ kept.
          All-if IsRepo (dir_has_git_suffix e.name) (e.name ∷ tail) tail
            (λ git. ((git, up e.name (inl (refl, ground arith))), rest)) (λ _. rest)

  missing_dirs-IsGone :
      (dirs : List Bytes)
      → All IsRepo dirs
      → All IsGone (missing_dirs (lower_names nss []) (strip_suffixes dirs dot_git_suffix))
  unfolding missing_dirs IsRepo strip_suffixes
  missing_dirs-IsGone [] h = tt
  missing_dirs-IsGone (nm ∷ dirs) h =
      let d = strip_suffix nm dot_git_suffix in
      let tail = missing_dirs (lower_names nss []) (strip_suffixes dirs dot_git_suffix) in
      let rest = missing_dirs-IsGone dirs h.1 in
      All-if IsGone (not (has_key (to_lower d) (lower_names nss []))) (to_lower d ∷ tail) tail
        (λ gone. (
          (ground (arith, has_key-set (to_lower d) nss), (d, refl, rw (unstripped nm h.0.0) h.0.1)),
          rest,
        ))
        (λ _. rest)

  -- Each app that a round deletes is gone.
  pub get_diff-IsGone :
      All IsGone
        (get_diff nss (strip_suffixes (select_dirs entries dir_has_git_suffix) dot_git_suffix))
  unfolding get_diff
  get_diff-IsGone = missing_dirs-IsGone _ (select_dirs-IsRepo entries (λ nm l. l))

  delete_matching-IsOrphan :
      {E : Type 0} (app : Bytes) (fails : Bytes → Option E) (objs : List Bytes)
      → IsGone app
      → All IsOrphan (delete_matching app fails objs).0
  unfolding delete_matching
  delete_matching-IsOrphan app fails [] gone = tt
  delete_matching-IsOrphan app fails (obj ∷ objs) gone =
      let rest = delete_matching-IsOrphan app fails objs gone in
      elim (Bool-cases (git_regex_matches app obj)) [
        | inr no_match ↦ rw (no_match, delete_matching) rest
        | inl match ↦ elim (Option-cases (fails obj)) [
          | inl deleted ↦ rw (match, deleted, delete_matching) ((app, match, gone), rest)
          | inr (e, failed) ↦ rw (match, failed, delete_matching) ((app, match, gone), tt)
        ]
      ]

  delete_apps-IsOrphan :
      {E : Type 0} (objects : Bytes → Result E (List Bytes)) (fails : Bytes → Bytes → Option E)
      (apps : List Bytes)
      → All IsGone apps
      → All IsOrphan (delete_apps git_home objects fails apps)
  unfolding delete_apps
  delete_apps-IsOrphan objects fails [] h = tt
  delete_apps-IsOrphan {E} objects fails (app ∷ apps) h = (
    (app, refl, h.0),
    All-append IsOrphan _ _ (from_storage (objects app))
        (delete_apps-IsOrphan objects fails apps h.1),
  )
    where
      from_storage :
          (o : Result E (List Bytes)) → All IsOrphan (delete_from_storage app o (fails app)).0
      from_storage (err e) = tt
      from_storage (ok objs) = delete_matching-IsOrphan app (fails app) objs h.0

  -- In a round, a directory is removed only at the path of an app that is the name in lower case of a
  -- listed directory `d.git`, and the name of no namespace in lower case; and an object is deleted only
  -- where its name matches the expression of such an app.
  pub run_round-IsOrphan :
      {E : Type 0} (objects : Bytes → Result E (List Bytes)) (fails : Bytes → Bytes → Option E)
      → All IsOrphan (run_round git_home (ok nss) (ok entries) objects fails).0
  unfolding run_round
  run_round-IsOrphan objects fails = delete_apps-IsOrphan objects fails _ get_diff-IsGone
