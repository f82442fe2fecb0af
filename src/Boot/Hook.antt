-- ===== src/Boot/Hook.antt =====
-- What the hook publishes, over all of its lines.
use mathlib.Core.Option
use builder.Base.{
  err, Bool, inr, inl, Bytes, codes, ◌≡◌, List, [], ◌∷◌, All, Option, some, Result, ok, All-append,
  Bool-cases, true, ◌⊎◌, Result-cases, Option-cases,
}
use builder.Text.{has_prefix}
use builder.K8s.Client.{Attempt, returned, panicked}
use builder.Maps.{Map}
use builder.Git.Sha.{Sha, new_sha}
use builder.Conf.{get_storage_params}
use builder.Gitreceive.Config.{Config, app, check_durations}
use builder.Gitreceive.Run.{read_line, run, run_hook}
use builder.Gitreceive.Build.{Outcome, Action, created_build, build}
use builder.Gitreceive.Calls.{Calls}
use builder.Gitreceive.Build.Stages.{HasBuilt}
use builder.Gitreceive.Build.Published.{IsUnpacked, IsPublishable, build-IsPublishable}
use builder.Boot.{build_from, git_receive_action}

-- A line that is read, with this new revision, is among these.
abbrev pub IsPushed : Bytes → List Bytes → Type 0
IsPushed rev [] = ⊥
IsPushed rev (line ∷ lines) =
    ((old_rev : Bytes) × (ref_name : Bytes) × (read_line line ≡ ok (old_rev, rev, ref_name)))
    ⊎ IsPushed rev lines

module _ {D Q E : Type 0} (calls : D → Q → Bytes → List Action → Calls E) (conf : Config) where
  -- A release of the app of the repository as the user of the push, for a revision of one of the lines
  -- of a push, whose job has built, with the files of this revision.
  abbrev pub IsReleased : List Bytes → Action → Type 0
  IsReleased lines
        (created_build username app_name image stack_name short_sha procfile dryccfile dockerfile) =
      (has_prefix conf.ssh_original_command (codes "git-receive-pack") ≡ true)
      × (username ≡ conf.username)
      × (app_name ≡ app conf)
      × ((rev : Bytes) × IsPushed rev lines
          × ((sha : Sha) × (new_sha rev ≡ some (ok sha)) × (sha.short ≡ short_sha))
          × ((driver : D) × (kube_client : Q) × (before : List Action) × HasBuilt
                (calls driver kube_client rev before) (check_durations conf)
              × IsUnpacked (calls driver kube_client rev before) (check_durations conf) stack_name
                  procfile dryccfile dockerfile))
  IsReleased lines _ = Unit

-- What holds of the world of a run, if each build of a line that is read keeps it.
run-keeps :
    {W E : Type 0} (P : W → Type 0) (conf : Config) (step : Bytes → W → W × Option E)
    (scan_error : Option E) (lines : List Bytes) (w : W)
    → ((rev : Bytes) (v : W)
        → has_prefix conf.ssh_original_command (codes "git-receive-pack") ≡ true
        → IsPushed rev lines
        → P v
        → P (step rev v).0)
    → P w
    → P (run conf step lines scan_error w).0
unfolding run
run-keeps P conf step scan_error [] w keep p = p
run-keeps {W} P conf step scan_error (line ∷ lines) w keep p =
    let rest : (v : W) → P v → P (run conf step lines scan_error v).0 = λ v q.
      run-keeps P conf step scan_error lines v (λ r u push pushed. keep r u push (inr pushed)) q in
    elim (Result-cases (read_line line)) [
      | inl (e, bad) ↦ rw (bad, run) p
      | inr ((old_rev, rev, ref_name), good) ↦
          elim (Bool-cases (has_prefix conf.ssh_original_command (codes "git-receive-pack"))) [
            | inr other ↦ rw (good, run) (rw (other, run) (rest w p))
            | inl push ↦
                rw (good, run)
                  (rw (push, run)
                    (let kept = keep rev w push (inl (old_rev, ref_name, good)) p in
                      elim (Option-cases (step rev w).1) [
                        | inl built ↦ rw (built, run) (rest (step rev w).0 kept)
                        | inr (e, failed) ↦ rw (failed, run) kept
                      ]))
          ]
    ]

module _ {D Q E : Type 0} (calls : D → Q → Bytes → List Action → Calls E) (conf : Config)
    (lines : List Bytes) where
  -- One build of one of the lines.
  actions-IsReleased :
      (driver : D) (kube_client : Q) (rev : Bytes) (before : List Action)
      → has_prefix conf.ssh_original_command (codes "git-receive-pack") ≡ true
      → IsPushed rev lines
      → (actions : List Action)
      → All (IsPublishable (calls driver kube_client rev before) (check_durations conf) rev) actions
      → All (IsReleased calls conf lines) actions
  unfolding check_durations app
  actions-IsReleased driver kube_client rev before push pushed [] h = tt
  actions-IsReleased driver kube_client rev before push pushed (action ∷ actions) h =
      (one action h.0, actions-IsReleased driver kube_client rev before push pushed actions h.1)
    where
      one :
          (a : Action)
          → IsPublishable (calls driver kube_client rev before) (check_durations conf) rev a
          → IsReleased calls conf lines a
      one (created_build username app_name image stack_name short_sha procfile dryccfile dockerfile)
            (user, name, sha, built, files) =
          (push, user, name, (rev, pushed, sha, (driver, kube_client, before, built, files)))
      one (builder.Gitreceive.Build.put_tar key content) h = tt
      one (builder.Gitreceive.Build.created_job job) h = tt
      one (builder.Gitreceive.Build.removed_all path) h = tt
      one (builder.Gitreceive.Build.made_dirs path) h = tt
      one (builder.Gitreceive.Build.made_temp path) h = tt
      one (builder.Gitreceive.Build.ran cmd) h = tt

  build_from-IsReleased :
      (driver : D) (kube_client : Q) (rev : Bytes) (before : List Action)
      → has_prefix conf.ssh_original_command (codes "git-receive-pack") ≡ true
      → IsPushed rev lines
      → All (IsReleased calls conf lines) before
      → All
          (IsReleased calls conf lines)
          (build_from calls driver (check_durations conf) kube_client rev before).0
  unfolding build_from
  build_from-IsReleased driver kube_client rev before push pushed h =
      All-append (IsReleased calls conf lines) before _ h (
        actions-IsReleased driver kube_client rev before push pushed _
          (build-IsPublishable (calls driver kube_client rev before) (check_durations conf) rev))

module _ {D Q E : Type 0} (hostname : Bytes → Option Bytes) (is_ip : Bytes → Bool)
    (env : Bytes → Bytes) (create : Map Bytes → Result E D)
    (calls : D → Q → Bytes → List Action → Calls E) where
  -- Whatever lines come on the standard input of the git-receive command, and however it ends: every
  -- release that it announces to the controller is in a push, of the app of the repository, as the user
  -- of the configuration, and for the short hash of a valid new revision of one of these lines, whose
  -- job's pod came up and ended and whose containers all exited with 0, with the Procfile and the
  -- Dockerfile that this revision was unpacked with.
  pub git_receive_action-IsReleased :
      (conf : Config) (cluster : Attempt E Q) (lines : List Bytes) (scan_error : Option E)
      → All
          (IsReleased calls conf lines)
          (git_receive_action hostname is_ip env create calls (ok conf) cluster lines scan_error).0
  unfolding git_receive_action run_hook check_durations
  git_receive_action-IsReleased conf cluster lines scan_error =
      elim (Result-cases (create (get_storage_params hostname is_ip env))) [
        | inl (e, bad) ↦ rw (bad, git_receive_action) tt
        | inr (driver, good) ↦ rw (good, git_receive_action) (hook driver cluster)
      ]
    where
      hook :
          (driver : D) (o : Attempt E Q)
          → All
              (IsReleased calls conf lines)
              (run_hook
                (check_durations conf)
                o
                (build_from calls driver (check_durations conf))
                lines
                (Option.map
                  (λ e. builder.Gitreceive.Build.failed (builder.Gitreceive.Build.call_failed e))
                  scan_error)
                []).0
      hook driver (panicked e) = tt
      hook driver (returned (err e)) = tt
      hook driver (returned (ok kube_client)) =
          run-keeps (All (IsReleased calls conf lines)) (check_durations conf)
            (build_from calls driver (check_durations conf) kube_client) _ lines []
            (λ rev before push pushed h.
              build_from-IsReleased calls conf lines driver kube_client rev before push pushed h)
            tt
