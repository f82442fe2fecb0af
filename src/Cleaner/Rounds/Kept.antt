-- ===== src/Cleaner/Rounds/Kept.antt =====
-- What no round touches, whatever fails.
use builder.Base.{
  Bytes, Bool, true, false, List, [], ◌∷◌, ◌++◌, Option, some, none, Result, ok, err, ◌≡◌, ◌∙◌, ap,
  sym, map, All, Bool-cases, inl, inr, Result-cases,
}
use builder.Text.{to_lower}
use builder.Text.Equality.{eqb, eqb_sound}
use builder.Cleaner.Members.{member}
use builder.Cleaner.Round.{IsGone, get_diff-IsGone, same_app}
use builder.Cleaner.Diff.{to_lower_idem}
use builder.Cleaner.Rounds.Gone.{delete_all_adds_no_dir}
use builder.Cleaner.{DirEntry, dot_git_suffix, git_regex_matches}
use builder.Cleaner.Rounds.{
  storage_dir, ObjectStore, Directory, IsObjectStore, IsDirectory, World, unless_failed,
  delete_objects, delete_app_objects, delete_all, round, rounds,
}
use builder.Cleaner.Rounds.Apps.{gone_apps, Listed-is_listed}
use builder.Cleaner.Rounds.Settled.{round_lem, round_failed}

module _ {S E : Type 0} (store : ObjectStore S E) {has : Bytes → S → Bool}
    (is_store : IsObjectStore store has) where
  unless_failed_keeps :
      (o : Bytes) (b : Bool) (r : S × Option E) (rest : S → S × Option E)
      → has o r.0 ≡ b
      → ((s : S) → has o s ≡ b → has o (rest s).0 ≡ b)
      → has o (unless_failed r rest).0 ≡ b
  unless_failed_keeps o b (s, none) rest h k = k s h
  unless_failed_keeps o b (s, some e) rest h k = h

  delete_objects_keeps :
      (app o : Bytes) (b : Bool) (objs : List Bytes) (s : S)
      → git_regex_matches app o ≡ false
      → has o s ≡ b
      → has o (delete_objects store app objs s).0 ≡ b
  unfolding delete_objects
  delete_objects_keeps app o b [] s other h = h
  delete_objects_keeps app o b (obj ∷ objs) s other h =
      elim (Bool-cases (git_regex_matches app obj)) [
        | inr no_match ↦ rw (no_match, delete_objects) (delete_objects_keeps app o b objs s other h)
        | inl match ↦
            rw (match, delete_objects)
              (unless_failed_keeps o b (store.delete obj s) _
                (is_store.delete_other obj o s (elim (Bool-cases (eqb obj o)) [
                  | inl same ↦
                      absurd (cc (match, other, ap (git_regex_matches app) (eqb_sound obj o same)))
                  | inr different ↦ different
                ])
                  ∙ h)
                (λ s' h'. delete_objects_keeps app o b objs s' other h'))
      ]

  delete_app_objects_keeps :
      (app o : Bytes) (b : Bool) (s : S)
      → git_regex_matches app o ≡ false
      → has o s ≡ b
      → has o (delete_app_objects store app s).0 ≡ b
  unfolding delete_app_objects
  delete_app_objects_keeps app o b s other h = elim (Result-cases (store.list storage_dir s)) [
    | inl (e, failed) ↦ rw (failed, delete_app_objects) h
    | inr (objs, listed) ↦
        rw (listed, delete_app_objects) (delete_objects_keeps app o b objs s other h)
  ]

module _ {D : Type 0} (has_dir : Bytes → D → Bool) (d o : Bytes) where
  -- The app `d` has a namespace in the list, and so has each app with a directory whose expression
  -- matches the object `o`.
  abbrev pub HasNamespaces : {S E : Type 0} → World D S → Result E (List Bytes) → Type 0
  HasNamespaces w (ok nss) =
      (member (to_lower d) (map to_lower nss) ≡ true)
      × ((x : Bytes)
          → has_dir (x ++ dot_git_suffix) w.dirs ≡ true
          → git_regex_matches (to_lower x) o ≡ true
          → member (to_lower x) (map to_lower nss) ≡ true)
  HasNamespaces w (err e) = Unit

  -- As it was with the directory and the object.
  abbrev pub IsAs : {S : Type 0} → (Bytes → S → Bool) → Bool → Bool → World D S → Type 0
  IsAs has_object b c w = (has_dir (d ++ dot_git_suffix) w.dirs ≡ b) × (has_object o w.objects ≡ c)

module _ {D S E : Type 0} (home : Directory D E) (store : ObjectStore S E) (git_home : Bytes)
    {has_dir : Bytes → D → Bool} {has_object : Bytes → S → Bool}
    (is_home : IsDirectory home git_home has_dir) (is_store : IsObjectStore store has_object) where
  module _ (name o : Bytes) where
    -- Neither the directory nor the object is one that is deleted for the app.
    abbrev Spares : Bytes → Type 0
    Spares app = (eqb (app ++ dot_git_suffix) name ≡ false) × (git_regex_matches app o ≡ false)

    delete_all_keeps :
        (b c : Bool) (apps : List Bytes) (w : World D S)
        → All Spares apps
        → has_dir name w.dirs ≡ b
        → has_object o w.objects ≡ c
        → (has_dir name (delete_all home store git_home apps w).0.dirs ≡ b)
          × (has_object o (delete_all home store git_home apps w).0.objects ≡ c)
    unfolding delete_all
    delete_all_keeps b c [] w spares dir object = (dir, object)
    delete_all_keeps b c (app ∷ apps) w spares dir object =
        delete_all_keeps b c apps _ spares.1
          (is_home.remove_other (app ++ dot_git_suffix) name w.dirs spares.0.0 ∙ dir)
          (delete_app_objects_keeps store is_store app o c w.objects spares.0.1 object)

  module _ (d o : Bytes) where
    IsGone-Spares :
        (nss : List Bytes) (w : World D S) (es : List DirEntry) (app : Bytes)
        → home.read_dir w.dirs ≡ ok es
        → HasNamespaces has_dir d o {E = E} w (ok nss)
        → IsGone git_home nss es app
        → Spares (d ++ dot_git_suffix) o app
    IsGone-Spares nss w es app listed (mine, others) (gone, (x, same, there)) = (
      elim (Bool-cases (eqb (app ++ dot_git_suffix) (d ++ dot_git_suffix))) [
        | inr different ↦ different
        | inl equal ↦
            let named : app ≡ d = same_app app d equal in
            let low : to_lower d ≡ app =
              ap to_lower (sym named) ∙ (ap to_lower same ∙ (to_lower_idem x ∙ sym same)) in
            absurd (cc (mine, gone, low))
      ],
      elim (Bool-cases (git_regex_matches app o)) [
        | inr no_match ↦ no_match
        | inl match ↦ absurd (
            cc (
              gone,
              same,
              others x
                  (sym (is_home.read_has w.dirs es listed (x ++ dot_git_suffix))
                    ∙ Listed-is_listed (x ++ dot_git_suffix) es there)
                  (rw (← same) match),
            ))
      ],
    )

    HasNamespaces-shrunk :
        (answer : Result E (List Bytes)) (w w' : World D S)
        → ((name : Bytes) → has_dir name w.dirs ≡ false → has_dir name w'.dirs ≡ false)
        → HasNamespaces has_dir d o w answer
        → HasNamespaces has_dir d o w' answer
    HasNamespaces-shrunk (err e) w w' shrunk h = tt
    HasNamespaces-shrunk (ok nss) w w' shrunk h = (
      h.0,
      λ x there match. elim (Bool-cases (has_dir (x ++ dot_git_suffix) w.dirs)) [
        | inl was ↦ h.1 x was match
        | inr was_not ↦ absurd (cc (shrunk (x ++ dot_git_suffix) was_not, there))
      ],
    )

    All-shrunk :
        (answers : List (Result E (List Bytes))) (w w' : World D S)
        → ((name : Bytes) → has_dir name w.dirs ≡ false → has_dir name w'.dirs ≡ false)
        → All (HasNamespaces has_dir d o w) answers
        → All (HasNamespaces has_dir d o w') answers
    All-shrunk [] w w' shrunk h = tt
    All-shrunk (answer ∷ answers) w w' shrunk h =
        (HasNamespaces-shrunk answer w w' shrunk h.0, All-shrunk answers w w' shrunk h.1)

    round_shrinks :
        (answer : Result E (List Bytes)) (w : World D S) (name : Bytes)
        → has_dir name w.dirs ≡ false
        → has_dir name (round home store git_home answer w).0.dirs ≡ false
    round_shrinks (err e) w name h = unfold round in h
    round_shrinks (ok nss) w name h = elim (Result-cases (home.read_dir w.dirs)) [
      | inl (e, failed) ↦ rw (round_failed home store git_home is_home is_store nss w e failed) h
      | inr (es, listed) ↦
          rw (round_lem home store git_home is_home is_store nss w es listed) (
            delete_all_adds_no_dir home store git_home is_home is_store name (gone_apps nss es) w h)
    ]

    All-IsGone-Spares :
        (nss : List Bytes) (w : World D S) (es : List DirEntry) (apps : List Bytes)
        → home.read_dir w.dirs ≡ ok es
        → HasNamespaces has_dir d o {E = E} w (ok nss)
        → All (IsGone git_home nss es) apps
        → All (Spares (d ++ dot_git_suffix) o) apps
    All-IsGone-Spares nss w es [] listed h gone = tt
    All-IsGone-Spares nss w es (app ∷ apps) listed h gone = (
      IsGone-Spares nss w es app listed h gone.0,
      All-IsGone-Spares nss w es apps listed h gone.1,
    )

    round-IsAs :
        (b c : Bool) (answer : Result E (List Bytes)) (w : World D S)
        → HasNamespaces has_dir d o w answer
        → IsAs has_dir d o has_object b c w
        → IsAs has_dir d o has_object b c (round home store git_home answer w).0
    round-IsAs b c (err e) w h kept = unfold round in kept
    round-IsAs b c (ok nss) w h kept = elim (Result-cases (home.read_dir w.dirs)) [
      | inl (e, failed) ↦ rw (round_failed home store git_home is_home is_store nss w e failed) kept
      | inr (es, listed) ↦ rw (round_lem home store git_home is_home is_store nss w es listed) (
          delete_all_keeps (d ++ dot_git_suffix) o b c (gone_apps nss es) w
            (All-IsGone-Spares nss w es (gone_apps nss es) listed h
              (get_diff-IsGone git_home nss es))
            kept.0 kept.1)
    ]

    -- Whatever fails in which rounds: while the app `d`, and each app with a directory whose expression
    -- matches the object `o`, has a namespace in every list that comes, the directory `d.git` is there
    -- after the rounds exactly when it was before them, and so is `o`.
    pub rounds-IsAs :
        (b c : Bool) (answers : List (Result E (List Bytes))) (w : World D S)
        → All (HasNamespaces has_dir d o w) answers
        → IsAs has_dir d o has_object b c w
        → IsAs has_dir d o has_object b c (rounds home store git_home answers w)
    unfolding rounds
    rounds-IsAs b c [] w h kept = kept
    rounds-IsAs b c (answer ∷ answers) w h kept =
        rounds-IsAs b c answers (round home store git_home answer w).0
          (All-shrunk answers w (round home store git_home answer w).0 (round_shrinks answer w) h.1)
          (round-IsAs b c answer w h.0 kept)
