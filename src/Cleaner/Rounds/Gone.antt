-- ===== src/Cleaner/Rounds/Gone.antt =====
-- What is gone after the apps are deleted.
use builder.Base.{
  Bytes, Bool, true, false, List, [], ◌∷◌, ◌++◌, Option, some, none, ◌≡◌, refl, ◌∙◌, arith,
  Bool-cases, inl, inr, Result-cases,
}
use builder.Text.Equality.{eqb, eqb_sound}
use builder.Cleaner.Members.{member}
use builder.Cleaner.{dot_git_suffix, git_regex_matches}
use builder.Sys.Path.{filepath_join}
use builder.Cleaner.Rounds.{
  storage_dir, ObjectStore, Directory, IsObjectStore, IsDirectory, World, logged, unless_failed,
  delete_objects, delete_app_objects, delete_all,
}

none-logged :
    {E : Type 0} (a b : Option E) (rest : List E)
    → logged a ++ (logged b ++ rest) ≡ []
    → (a ≡ none) × (b ≡ none) × (rest ≡ [])
none-logged none none rest e = (refl, refl, e)
none-logged none (some f) rest e = absurd (cc e)
none-logged (some f) b rest e = absurd (cc e)

module _ {S E : Type 0} (store : ObjectStore S E) {has : Bytes → S → Bool}
    (is_store : IsObjectStore store has) where
  -- A call, and what follows it if it does not fail.
  unless_failed-absent :
      (o : Bytes) (r : S × Option E) (rest : S → S × Option E)
      → has o r.0 ≡ false
      → ((s : S) → has o s ≡ false → has o (rest s).0 ≡ false)
      → has o (unless_failed r rest).0 ≡ false
  unless_failed-absent o (s, none) rest h k = k s h
  unless_failed-absent o (s, some e) rest h k = h

  delete_objects_adds_nothing :
      (app o : Bytes) (objs : List Bytes) (s : S)
      → has o s ≡ false
      → has o (delete_objects store app objs s).0 ≡ false
  unfolding delete_objects
  delete_objects_adds_nothing app o [] s h = h
  delete_objects_adds_nothing app o (obj ∷ objs) s h =
      elim (Bool-cases (git_regex_matches app obj)) [
        | inl match ↦
            rw (match, delete_objects)
              (unless_failed-absent o (store.delete obj s) _
                (is_store.delete_adds_nothing obj o s h) (delete_objects_adds_nothing app o objs))
        | inr other ↦ rw (other, delete_objects) (delete_objects_adds_nothing app o objs s h)
      ]

  -- An object is gone if it goes at the call, and nothing after the call brings it back.
  unless_failed-gone :
      (o : Bytes) (r : S × Option E) (rest : S → S × Option E)
      → (unless_failed r rest).1 ≡ none
      → (r.1 ≡ none → (rest r.0).1 ≡ none → has o (rest r.0).0 ≡ false)
      → has o (unless_failed r rest).0 ≡ false
  unless_failed-gone o (s, none) rest e k = k refl e
  unless_failed-gone o (s, some e) rest e' k = absurd (cc e')

  deleted_same :
      (x o : Bytes) (s : S)
      → eqb x o ≡ true
      → (store.delete x s).1 ≡ none
      → has o (store.delete x s).0 ≡ false
  deleted_same x o s same done = rw (← eqb_sound x o same) (is_store.deleted x s done)

  delete_objects-gone :
      (app o : Bytes) (objs : List Bytes) (s : S)
      → git_regex_matches app o ≡ true
      → member o objs ≡ true
      → (delete_objects store app objs s).1 ≡ none
      → has o (delete_objects store app objs s).0 ≡ false
  unfolding delete_objects member
  delete_objects-gone app o [] s match h e = absurd (cc h)
  delete_objects-gone app o (obj ∷ objs) s match h e = elim (Bool-cases (eqb obj o)) [
    | inl same ↦
        let matched : git_regex_matches app obj ≡ true = rw (eqb_sound obj o same) match in
        rw (matched, delete_objects)
          (unless_failed-gone o (store.delete obj s) _ (rw (matched, delete_objects) at e)
            (λ done rest.
              delete_objects_adds_nothing app o objs _ (deleted_same obj o s same done)))
    | inr other ↦ elim (Bool-cases (git_regex_matches app obj)) [
      | inl matched ↦
          rw (matched, delete_objects)
            (unless_failed-gone o (store.delete obj s) _ (rw (matched, delete_objects) at e)
              (λ done rest. delete_objects-gone app o objs _ match (ground (arith, h, other)) rest))
      | inr unmatched ↦
          rw (unmatched, delete_objects)
            (delete_objects-gone app o objs s match (ground (arith, h, other))
              (rw (unmatched, delete_objects) at e))
    ]
  ]

  delete_app_objects_adds_nothing :
      (app o : Bytes) (s : S) → has o s ≡ false → has o (delete_app_objects store app s).0 ≡ false
  unfolding delete_app_objects
  delete_app_objects_adds_nothing app o s h = elim (Result-cases (store.list storage_dir s)) [
    | inl (e, failed) ↦ rw (failed, delete_app_objects) h
    | inr (objs, listed) ↦
        rw (listed, delete_app_objects) (delete_objects_adds_nothing app o objs s h)
  ]

  delete_app_objects-gone :
      (app o : Bytes) (s : S)
      → git_regex_matches app o ≡ true
      → (delete_app_objects store app s).1 ≡ none
      → has o (delete_app_objects store app s).0 ≡ false
  unfolding delete_app_objects
  delete_app_objects-gone app o s match e = elim (Result-cases (store.list storage_dir s)) [
    | inl (f, failed) ↦ absurd (cc (rw (failed, delete_app_objects) at e))
    | inr (objs, listed) ↦ elim (Bool-cases (has o s)) [
      | inr absent ↦ delete_app_objects_adds_nothing app o s absent
      | inl present ↦
          rw (listed, delete_app_objects)
            (delete_objects-gone app o objs s match (is_store.list_has s objs listed o ∙ present)
              (rw (listed, delete_app_objects) at e))
    ]
  ]

module _ {D S : Type 0} (has_dir : Bytes → D → Bool) (has_object : Bytes → S → Bool) where
  -- Nothing is left of the app: neither its directory nor an object that its expression matches.
  abbrev pub IsCleared : Bytes → World D S → Type 0
  IsCleared app w =
      (has_dir (app ++ dot_git_suffix) w.dirs ≡ false)
      × ((o : Bytes) → git_regex_matches app o ≡ true → has_object o w.objects ≡ false)

module _ {D S E : Type 0} (home : Directory D E) (store : ObjectStore S E) (git_home : Bytes)
    {has_dir : Bytes → D → Bool} {has_object : Bytes → S → Bool}
    (is_home : IsDirectory home git_home has_dir) (is_store : IsObjectStore store has_object) where
  -- What is deleted for the first of the apps.
  abbrev cleared : Bytes → World D S → World D S
  cleared app w = record {
    dirs = (home.remove_all (filepath_join git_home (app ++ dot_git_suffix)) w.dirs).0;
    objects = (delete_app_objects store app w.objects).0;
  }

  pub delete_all_adds_no_dir :
      (name : Bytes) (apps : List Bytes) (w : World D S)
      → has_dir name w.dirs ≡ false
      → has_dir name (delete_all home store git_home apps w).0.dirs ≡ false
  unfolding delete_all
  delete_all_adds_no_dir name [] w h = h
  delete_all_adds_no_dir name (app ∷ apps) w h =
      delete_all_adds_no_dir name apps (cleared app w)
        (is_home.remove_adds_nothing (app ++ dot_git_suffix) name w.dirs h)

  pub delete_all_adds_no_object :
      (o : Bytes) (apps : List Bytes) (w : World D S)
      → has_object o w.objects ≡ false
      → has_object o (delete_all home store git_home apps w).0.objects ≡ false
  unfolding delete_all
  delete_all_adds_no_object o [] w h = h
  delete_all_adds_no_object o (app ∷ apps) w h =
      delete_all_adds_no_object o apps (cleared app w)
        (delete_app_objects_adds_nothing store is_store app o w.objects h)

  -- Nothing is left of an app among them, if no error was logged.
  pub delete_all-IsCleared :
      (app : Bytes) (apps : List Bytes) (w : World D S)
      → member app apps ≡ true
      → (delete_all home store git_home apps w).1 ≡ []
      → IsCleared has_dir has_object app (delete_all home store git_home apps w).0
  unfolding delete_all member
  delete_all-IsCleared app [] w h e = absurd (cc h)
  delete_all-IsCleared app (x ∷ apps) w h e = elim (Bool-cases (eqb x app)) [
    | inl same ↦ rw (← eqb_sound x app same) (
      delete_all_adds_no_dir (x ++ dot_git_suffix) apps (cleared x w)
          (is_home.removed (x ++ dot_git_suffix) w.dirs (none-logged removal deletion rest e).0),
      λ o match. delete_all_adds_no_object o apps (cleared x w) (
          delete_app_objects-gone store is_store x o w.objects match
            (none-logged removal deletion rest e).1),
    )
    | inr other ↦
        delete_all-IsCleared app apps (cleared x w) (ground (arith, h, other))
          (none-logged removal deletion rest e).2
  ]
    where
      removal : Option E
      removal = (home.remove_all (filepath_join git_home (x ++ dot_git_suffix)) w.dirs).1

      deletion : Option E
      deletion = (delete_app_objects store x w.objects).1

      rest : List E
      rest = (delete_all home store git_home apps (cleared x w)).1
