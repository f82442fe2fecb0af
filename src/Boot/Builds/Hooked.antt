-- ===== src/Boot/Builds/Hooked.antt =====
-- The whole git-receive command.
use mathlib.Core.Option
use builder.Gitreceive.Run as Gitreceive
use builder.Base.{
  Bytes, codes, Bool, true, false, List, [], Option, some, none, Result, ok, err, ◌≡◌, ◌⊎◌, refl,
  inl, inr, Result-cases, Bool-cases,
}
use builder.Text.{has_prefix}
use builder.Maps.{Map}
use builder.K8s.Client.{Attempt, returned, panicked}
use builder.Conf.{get_storage_params}
use builder.Gitreceive.Calls.{Calls}
use builder.Gitreceive.Config.{Config, check_durations}
use builder.Gitreceive.Run.{RunError, read_line, run, run_hook}
use builder.Gitreceive.Build.{Outcome, failed, call_failed, Action}
use builder.Boot.{ReceiveError, build_from, git_receive_action}
use builder.Boot.Builds.{step, revisions, HasBuilds, push-HasBuilds, run_other, map-HasBuilds}

-- The command is a push, not a fetch.
abbrev pub IsPush : Config → Type 0
IsPush conf = has_prefix conf.ssh_original_command (codes "git-receive-pack") ≡ true

module _ {D Q E : Type 0} (calls : D → Q → Bytes → List Action → Calls E) (conf : Config)
    (driver : D) (lines : List Bytes) where
  -- Nothing has been done, and not by a push without an error; or the builds of a push.
  abbrev Hooked : {S : Type 0} → List Action × Option S → Type 0
  Hooked (after, failure) =
      ((after ≡ [])
        × ((has_prefix conf.ssh_original_command (codes "git-receive-pack") ≡ false)
            ⊎ (¬ (failure ≡ none))))
      ⊎ (IsPush conf
          × ((kube_client : Q) × HasBuilds calls conf driver kube_client [] (revisions lines)
                (after, failure)))

  map-Hooked :
      {R S : Type 0} (f : R → S) (after : List Action) (failure : Option R)
      → Hooked (after, failure)
      → Hooked {S = S} (after, Option.map f failure)
  map-Hooked f after failure (inl (nothing, inl other)) = inl (nothing, inl other)
  map-Hooked f after none (inl (nothing, inr fails)) = absurd (fails refl)
  map-Hooked f after (some e) (inl (nothing, inr fails)) = inl (nothing, inr (λ d. cc))
  map-Hooked f after failure (inr (push, (kube_client, h))) = inr (
    push,
    (
      kube_client,
      map-HasBuilds calls conf driver kube_client f [] (revisions lines) after failure h,
    ),
  )

  run_hook-Hooked :
      {F : Type 0} (cluster : Attempt F Q) (scan_error : Option (Outcome E))
      → Hooked (run_hook conf cluster (build_from calls driver conf) lines scan_error [])
  unfolding run_hook build_from step
  run_hook-Hooked (panicked e) scan_error = inl (refl, inr (λ d. cc))
  run_hook-Hooked (returned (err e)) scan_error = inl (refl, inr (λ d. cc))
  run_hook-Hooked (returned (ok kube_client)) scan_error =
      map-Hooked Gitreceive.hook_failed _ _
        (elim (Bool-cases (has_prefix conf.ssh_original_command (codes "git-receive-pack"))) [
          | inl push ↦ inr (
            push,
            (kube_client, push-HasBuilds calls conf driver kube_client lines scan_error [] push),
          )
          | inr other ↦
              inl (run_other calls conf driver kube_client lines scan_error [] other, inl other)
        ])

module _ {D Q E : Type 0} (hostname : Bytes → Option Bytes) (is_ip : Bytes → Bool)
    (env : Bytes → Bytes) (create : Map Bytes → Result E D)
    (calls : D → Q → Bytes → List Action → Calls E) (conf : Config) (cluster : Attempt E Q)
    (lines : List Bytes) (scan_error : Option E) where
  abbrev hook_result : List Action × Option (ReceiveError E (Outcome E))
  hook_result =
      git_receive_action hostname is_ip env create calls (ok conf) cluster lines scan_error

  -- Nothing has been done, and not by a push without an error.
  abbrev pub DidNothing : Type 0
  DidNothing =
      (hook_result.0 ≡ [])
      × ((has_prefix conf.ssh_original_command (codes "git-receive-pack") ≡ false)
          ⊎ (¬ (hook_result.1 ≡ none)))

  -- The builds of a push.
  abbrev pub HasPushed : Type 0
  HasPushed =
      IsPush conf
      × ((driver : D) × (kube_client : Q) × HasBuilds calls (check_durations conf) driver
            kube_client [] (revisions lines) hook_result)

  -- The git-receive command with a configuration, whatever lines it reads and whatever its calls give: it
  -- does nothing, and is no push or returns an error; or it is a push, and what it does is whole builds,
  -- one after another, of the new revisions of the lines up to the first that cannot be read, in their
  -- order; a build begins only where the one before it returned no error; and if the command returns no
  -- error, then each of these revisions was built, and no build returned one.
  pub git_receive_action-HasBuilds : DidNothing ⊎ HasPushed
  unfolding git_receive_action check_durations
  git_receive_action-HasBuilds =
      elim (Result-cases (create (get_storage_params hostname is_ip env))) [
        | inl (e, bad) ↦
            inl (rw (bad, git_receive_action), inr (rw (bad, git_receive_action) (λ d. cc)))
        | inr (driver, good) ↦
            rw (good, git_receive_action)
              (elim (map-Hooked calls (check_durations conf) driver lines ReceiveError.hook_failed _
                _
                (run_hook-Hooked calls (check_durations conf) driver lines cluster
                  (Option.map (λ e. failed (call_failed e)) scan_error))) [
                    | inl h ↦ inl h
                    | inr (push, (kube_client, h)) ↦ inr (push, (driver, kube_client, h))
                  ])
      ]
