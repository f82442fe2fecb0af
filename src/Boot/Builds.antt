-- ===== src/Boot/Builds.antt =====
-- The builds of a git-receive command, one after another.
pub mod Hooked
use mathlib.Core.Option
use builder.Gitreceive.Run as Gitreceive
use builder.Base.{
  ◌++◌, Bytes, codes, Bool, true, false, List, [], ◌∷◌, Option, some, none, Result, ok, err, ◌≡◌,
  ◌⊎◌, refl, ap, inl, inr, Result-cases, Bool-cases,
}
use builder.Text.{has_prefix}
use builder.Maps.{Map}
use builder.K8s.Client.{Attempt, returned, panicked}
use builder.Conf.{get_storage_params}
use builder.Gitreceive.Calls.{Calls}
use builder.Gitreceive.Config.{Config, check_durations}
use builder.Gitreceive.Run.{RunError, read_line, run, run_hook}
use builder.Gitreceive.Build.{Outcome, done, failed, call_failed, Action, Run, build}
use builder.Gitreceive.Build as Build
use builder.Gitreceive.Build.Traced.{IsBuild, build-IsBuild}
use builder.Boot.{ReceiveError, outcome_error, build_from, git_receive_action}

-- The new revisions of the lines, up to the first that cannot be read.
pub revisions : List Bytes → List Bytes
revisions [] = []
revisions (line ∷ lines) =
    let rest = revisions lines in
    elim (read_line line) [ err e ↦ [] | ok (old_rev, new_rev, ref_name) ↦ new_rev ∷ rest ]

module _ {D Q E : Type 0} (calls : D → Q → Bytes → List Action → Calls E) (conf : Config)
    (driver : D) (kube_client : Q) where
  -- Builds of these revisions, in their order, take the actions from the first list to the last, each in
  -- one piece; the next begins only where the one before it returned no error. The Boolean says whether
  -- all of them did.
  pub data IsBuilds : List Action → List Bytes → List Action → Bool → Type 0 where
    no_builds : (before : List Action) → IsBuilds before [] before true
    and_then :
        (before actions after : List Action) (rev : Bytes) (revs : List Bytes) (all : Bool)
        → IsBuild (calls driver kube_client rev before) conf rev (actions, done)
        → IsBuilds (before ++ actions) revs after all
        → IsBuilds before (rev ∷ revs) after all
    and_stop :
        (before actions : List Action) (rev : Bytes) (o : Outcome E)
        → IsBuild (calls driver kube_client rev before) conf rev (actions, o)
        → ¬ (o ≡ done)
        → IsBuilds before (rev ∷ []) (before ++ actions) false

  -- The revisions `revs` that are built are the first of those of `all_revs`, and no error means all.
  abbrev pub HasBuilds : {R : Type 0} → List Action → List Bytes → List Action × Option R → Type 0
  HasBuilds before all_revs (after, failure) =
      (revs : List Bytes) × (rest : List Bytes) × (revs ++ rest ≡ all_revs)
      × ((fine : Bool) × IsBuilds before revs after fine
          × (((fine ≡ true) × (rest ≡ [])) ⊎ (¬ (failure ≡ none))))

  pub step : Bytes → List Action → List Action × Option (Outcome E)
  step = build_from calls driver conf kube_client

  -- One build, and then what follows it.
  step-HasBuilds :
      {R : Type 0} (rev : Bytes) (before : List Action) (r : Run E) (revs : List Bytes)
      (next : List Action → List Action × Option R) (stopped : Outcome E → R)
      → IsBuild (calls driver kube_client rev before) conf rev r
      → ((after : List Action) → HasBuilds {R = R} after revs (next after))
      → HasBuilds {R = R} before (rev ∷ revs) (elim (outcome_error r.1) [
        | none ↦ next (before ++ r.0)
        | some e ↦ (before ++ r.0, some (stopped e))
      ])
  unfolding outcome_error
  step-HasBuilds rev before (actions, done) revs next stopped h rest =
      let (built, left, same, (fine, builds, ends)) = rest (before ++ actions) in
      (
        rev ∷ built,
        left,
        ap (λ x. rev ∷ x) same,
        (fine, and_then before actions _ rev built fine h builds, ends),
      )
  step-HasBuilds rev before (actions, failed e) revs next stopped h rest = (
    rev ∷ [],
    revs,
    refl,
    (false, and_stop before actions rev (failed e) h (λ d. cc), inr (λ d. cc)),
  )
  step-HasBuilds rev before (actions, Build.panicked) revs next stopped h rest = (
    rev ∷ [],
    revs,
    refl,
    (false, and_stop before actions rev Build.panicked h (λ d. cc), inr (λ d. cc)),
  )

  pub push-HasBuilds :
      (lines : List Bytes) (scan_error : Option (Outcome E)) (before : List Action)
      → has_prefix conf.ssh_original_command (codes "git-receive-pack") ≡ true
      → HasBuilds before (revisions lines) (run conf step lines scan_error before)
  unfolding run revisions step build_from
  push-HasBuilds [] scan_error before push =
      ([], [], refl, (true, no_builds before, inl (refl, refl)))
  push-HasBuilds (line ∷ lines) scan_error before push = elim (Result-cases (read_line line)) [
    | inl (e, bad) ↦
        rw (bad, run, revisions) ([], [], refl, (true, no_builds before, inr (λ d. cc)))
    | inr ((old_rev, rev, ref_name), good) ↦
        rw (good, run, revisions)
          (rw (push) (
            step-HasBuilds rev before (build (calls driver kube_client rev before) conf rev)
              (revisions lines) (run conf step lines scan_error) builder.Gitreceive.Run.build_failed
              (build-IsBuild (calls driver kube_client rev before) conf rev)
              (λ after. push-HasBuilds lines scan_error after push)))
  ]

  pub run_other :
      (lines : List Bytes) (scan_error : Option (Outcome E)) (before : List Action)
      → has_prefix conf.ssh_original_command (codes "git-receive-pack") ≡ false
      → (run conf step lines scan_error before).0 ≡ before
  unfolding run
  run_other [] scan_error before other = refl
  run_other (line ∷ lines) scan_error before other = elim (Result-cases (read_line line)) [
    | inl (e, bad) ↦ rw (bad, run)
    | inr ((old_rev, rev, ref_name), good) ↦
        rw (good, run) (rw (other) (run_other lines scan_error before other))
  ]

  pub map-HasBuilds :
      {R S : Type 0} (f : R → S) (before : List Action) (revs : List Bytes) (after : List Action)
      (failure : Option R)
      → HasBuilds before revs (after, failure)
      → HasBuilds {R = S} before revs (after, Option.map f failure)
  map-HasBuilds f before revs after none (built, rest, same, (fine, builds, inl all)) =
      (built, rest, same, (fine, builds, inl all))
  map-HasBuilds f before revs after none (built, rest, same, (fine, builds, inr fails)) =
      absurd (fails refl)
  map-HasBuilds f before revs after (some e) (built, rest, same, (fine, builds, ends)) =
      (built, rest, same, (fine, builds, inr (λ d. cc)))
