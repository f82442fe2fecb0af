-- ===== src/Cleaner/Rounds/Settled.antt =====
-- A round that logs no error leaves nothing to delete for the rounds after it.
use builder.Base.{
  Bytes, Bool, true, false, List, [], ◌∷◌, ◌++◌, none, Result, ok, err, ◌≡◌, refl, sym, ◌∙◌, map,
  All, arith, Bool-cases, inl, inr, Result-cases,
}
use builder.Text.{to_lower}
use builder.Text.Equality.{eqb, eqb_sound, eqb_refl}
use builder.Cleaner.Members.{member}
use builder.Cleaner.{DirEntry, dot_git_suffix, git_regex_matches, local_dirs}
use builder.Sys.Path.{filepath_join}
use builder.Cleaner.Rounds.{
  storage_dir, ObjectStore, Directory, IsObjectStore, IsDirectory, World, is_listed, delete_objects,
  delete_app_objects, delete_all, round, rounds,
}
use builder.Cleaner.Rounds.Apps.{gone_apps, member-gone_apps, Includes, gone_apps_again}
use builder.Cleaner.Rounds.Gone.{IsCleared, delete_all-IsCleared, delete_all_adds_no_dir}

-- No object of the list matches, so none is deleted.
delete_objects-none :
    {S E : Type 0} (store : ObjectStore S E) (app : Bytes) (objs : List Bytes) (s : S)
    → ((o : Bytes) → member o objs ≡ true → git_regex_matches app o ≡ false)
    → delete_objects store app objs s ≡ (s, none)
unfolding delete_objects member
delete_objects-none store app [] s h = refl
delete_objects-none store app (obj ∷ objs) s h =
    rw (h obj (ground (arith, eqb_refl obj)), delete_objects)
      (delete_objects-none store app objs s (λ o m. h o (ground (arith, m))))

-- The namespaces that a round was answered with are all in each list of a later answer.
abbrev pub KeepsNamespaces : {E : Type 0} → List Bytes → Result E (List Bytes) → Type 0
KeepsNamespaces nss (ok more) = Includes nss more
KeepsNamespaces nss (err e) = Unit

module _ {D S : Type 0} (has_dir : Bytes → D → Bool) where
  -- There are the same directories, and the store has not changed.
  abbrev pub IsUnchanged : World D S → World D S → Type 0
  IsUnchanged w w' =
      ((name : Bytes) → has_dir name w'.dirs ≡ has_dir name w.dirs) × (w'.objects ≡ w.objects)

module _ {D S E : Type 0} (home : Directory D E) (store : ObjectStore S E) (git_home : Bytes)
    {has_dir : Bytes → D → Bool} {has_object : Bytes → S → Bool}
    (is_home : IsDirectory home git_home has_dir) (is_store : IsObjectStore store has_object) where
  abbrev Cleared : Bytes → World D S → Type 0
  Cleared = IsCleared has_dir has_object

  delete_app_objects-Cleared :
      (app : Bytes) (w : World D S)
      → Cleared app w
      → (delete_app_objects store app w.objects).0 ≡ w.objects
  unfolding delete_app_objects
  delete_app_objects-Cleared app w cleared =
      elim (Result-cases (store.list storage_dir w.objects)) [
        | inl (e, failed) ↦ rw (failed, delete_app_objects)
        | inr (objs, listed) ↦
            rw (listed, delete_app_objects)
              (rw (
                delete_objects-none store app objs w.objects λ o m.
                  elim (Bool-cases (git_regex_matches app o)) [
                    | inr no_match ↦ no_match
                    | inl match ↦
                        absurd
                          (cc (is_store.list_has w.objects objs listed o, m, cleared.1 o match))
                  ]))
      ]

  remove_all-Cleared :
      (app name : Bytes) (w : World D S)
      → Cleared app w
      → has_dir name (home.remove_all (filepath_join git_home (app ++ dot_git_suffix)) w.dirs).0
        ≡ has_dir name w.dirs
  remove_all-Cleared app name w cleared = elim (Bool-cases (eqb (app ++ dot_git_suffix) name)) [
    | inl same ↦ rw (← eqb_sound (app ++ dot_git_suffix) name same) (
        is_home.remove_adds_nothing (app ++ dot_git_suffix) (app ++ dot_git_suffix) w.dirs cleared.0
        ∙ sym cleared.0)
    | inr other ↦ is_home.remove_other (app ++ dot_git_suffix) name w.dirs other
  ]

  Cleared-IsUnchanged :
      (app : Bytes) (w w' : World D S) → IsUnchanged has_dir w w' → Cleared app w → Cleared app w'
  Cleared-IsUnchanged app w w' same cleared =
      (same.0 (app ++ dot_git_suffix) ∙ cleared.0, λ o match. rw same.1 (cleared.1 o match))

  IsUnchanged-trans :
      (u v w : World D S)
      → IsUnchanged has_dir u v
      → IsUnchanged has_dir v w
      → IsUnchanged has_dir u w
  IsUnchanged-trans u v w h k = (λ name. k.0 name ∙ h.0 name, k.1 ∙ h.1)

  delete_all-IsUnchanged :
      (apps : List Bytes) (w : World D S)
      → ((app : Bytes) → member app apps ≡ true → Cleared app w)
      → IsUnchanged has_dir w (delete_all home store git_home apps w).0
  unfolding delete_all member
  delete_all-IsUnchanged [] w cleared = (λ name. refl, refl)
  delete_all-IsUnchanged (app ∷ apps) w cleared = IsUnchanged-trans w next _ step (
      delete_all-IsUnchanged apps next
        λ x m. Cleared-IsUnchanged x w next step (cleared x (ground (arith, m))))
    where
      next : World D S
      next = record {
        dirs = (home.remove_all (filepath_join git_home (app ++ dot_git_suffix)) w.dirs).0;
        objects = (delete_app_objects store app w.objects).0;
      }

      first : Cleared app w
      first = cleared app (ground (arith, eqb_refl app))

      step : IsUnchanged has_dir w next
      step = (λ name. remove_all-Cleared app name w first, delete_app_objects-Cleared app w first)

  pub round_lem :
      (nss : List Bytes) (w : World D S) (es : List DirEntry)
      → home.read_dir w.dirs ≡ ok es
      → round home store git_home (ok nss) w ≡ delete_all home store git_home (gone_apps nss es) w
  unfolding round local_dirs
  round_lem nss w es listed = rw (listed, round)

  pub round_failed :
      (nss : List Bytes) (w : World D S) (e : E)
      → home.read_dir w.dirs ≡ err e
      → round home store git_home (ok nss) w ≡ (w, e ∷ [])
  unfolding round local_dirs
  round_failed nss w e failed = rw (failed, round)

  module _ (nss : List Bytes) (es : List DirEntry) (u : World D S)
      (cleared : (app : Bytes) → member app (gone_apps nss es) ≡ true → Cleared app u)
      (shrunk : (name : Bytes) → has_dir name u.dirs ≡ true → is_listed name es ≡ true) where
    round-IsUnchanged :
        (answer : Result E (List Bytes)) (w : World D S)
        → KeepsNamespaces nss answer
        → IsUnchanged has_dir u w
        → IsUnchanged has_dir w (round home store git_home answer w).0
    round-IsUnchanged (err e) w keeps same = unfold round in (λ name. refl, refl)
    round-IsUnchanged (ok more) w keeps same = elim (Result-cases (home.read_dir w.dirs)) [
      | inl (e, failed) ↦ rw (round_failed more w e failed) (λ name. refl, refl)
      | inr (after, listed) ↦ rw (round_lem more w after listed) (
          delete_all-IsUnchanged (gone_apps more after) w λ app m.
            Cleared-IsUnchanged app u w same (
              cleared app (
                gone_apps_again app nss more es after keeps
                  (λ name here.
                    shrunk name (
                      sym (same.0 name) ∙ (sym (is_home.read_has w.dirs after listed name) ∙ here)))
                  m)))
    ]

    rounds-IsUnchanged :
        (answers : List (Result E (List Bytes))) (w : World D S)
        → All (KeepsNamespaces nss) answers
        → IsUnchanged has_dir u w
        → IsUnchanged has_dir u (rounds home store git_home answers w)
    unfolding rounds
    rounds-IsUnchanged [] w keeps same = same
    rounds-IsUnchanged (answer ∷ answers) w keeps same =
        let step = round-IsUnchanged answer w keeps.0 same in
        rounds-IsUnchanged answers (round home store git_home answer w).0 keeps.1
          (IsUnchanged-trans u w _ same step)

  -- A round whose list of namespaces comes and that logs no error: of an app that is the name in lower
  -- case of a directory `d.git` and not that of a namespace in lower case, there is no directory and no
  -- object that matches. Any later rounds, whether or not they fail, change nothing, as long as no
  -- namespace goes.
  pub rounds_lem :
      (nss : List Bytes) (answers : List (Result E (List Bytes))) (w : World D S)
      → (round home store git_home (ok nss) w).1 ≡ []
      → All (KeepsNamespaces nss) answers
      → ((d : Bytes)
          → has_dir (d ++ dot_git_suffix) w.dirs ≡ true
          → member (to_lower d) (map to_lower nss) ≡ false
          → IsCleared has_dir has_object (to_lower d) (round home store git_home (ok nss) w).0)
        × IsUnchanged has_dir
            (round home store git_home (ok nss) w).0
            (rounds home store git_home answers (round home store git_home (ok nss) w).0)
  rounds_lem nss answers w clean keeps = elim (Result-cases (home.read_dir w.dirs)) [
    | inl (e, failed) ↦ absurd (cc (rw (round_failed nss w e failed) at clean))
    | inr (es, listed) ↦
        let clean' = rw (round_lem nss w es listed) at clean in
        let apps = gone_apps nss es in
        let after = (delete_all home store git_home apps w).0 in
        let cleared : (app : Bytes) → member app apps ≡ true → Cleared app after =
          λ app m. delete_all-IsCleared home store git_home is_home is_store app apps w m clean' in
        rw (round_lem nss w es listed) (
          λ d here gone. cleared (to_lower d) (
              member-gone_apps d nss es
                (is_home.read_has w.dirs es listed (d ++ dot_git_suffix) ∙ here) gone),
          rounds-IsUnchanged nss es after cleared
              (λ name here. elim (Bool-cases (has_dir name w.dirs)) [
                | inl there ↦ is_home.read_has w.dirs es listed name ∙ there
                | inr absent ↦ absurd (
                    cc (
                      delete_all_adds_no_dir home store git_home is_home is_store name apps w
                          absent,
                      here,
                    ))
              ])
              answers after keeps (λ name. refl, refl),
        )
  ]
