-- ===== src/Gitreceive/Build/Succeeds.antt =====
-- The build whose calls all succeed, call by call.
use builder.Base.{
  ℕ, Bytes, ◌≡◌, refl, List, [], ◌∷◌, All, Option, some, none, Result, ok, ◌∙◌, true, ap,
}
use builder.Maps.{Map}
use builder.Gitreceive.Config.{Config}
use builder.Gitreceive.Stack.{Stack}
use builder.Gitreceive.Imagebuilder.{EnvRequired}
use builder.Base.Int.{ℤ, pos, ltb_ℤ}
use builder.Gitreceive.Command.{tar_key, git_archive_cmd, tar_cmd}
use builder.Gitreceive.Build.{
  ran, run_cmd, with_ticker, with_stack, BuildError, Action, Run, done, put_tar, created_job,
  attempt, perform, obtain, require, check_exit_codes, first_pod, publish, follow, launch, upload,
  build_sha, build,
}
use builder.Gitreceive.Calls.{Calls}
use builder.Gitreceive.Build.Given.{Given, Built, Prepared, Finished, release, build_job, actions}

module _ {E : Type 0} {x : Run E} where
  attempt_to : {o : Option E} {rest : Run E} → o ≡ none → rest ≡ x → attempt o rest ≡ x
  unfolding attempt
  attempt_to e h = rw (e, attempt) h

  obtain_to :
      {A : Type 0} {r : Result E A} {a : A} (rest : A → Run E)
      → r ≡ ok a
      → rest a ≡ x
      → obtain r rest ≡ x
  unfolding obtain
  obtain_to rest e h = rw (e, obtain) h

  require_to :
      {F A : Type 0} {r : Result F A} {a : A} (wrap : F → BuildError E) (rest : A → Run E)
      → r ≡ ok a
      → rest a ≡ x
      → require wrap r rest ≡ x
  unfolding require
  require_to wrap rest e h = rw (e, require) h

  perform_to :
      {action : Action} {o : Option E} {rest : Run E}
      → o ≡ none
      → rest ≡ x
      → perform action o rest ≡ (action ∷ x.0, x.1)
  unfolding perform
  perform_to e h = rw (e, h, perform)

  ticker_to :
      (interval : ℤ) {rest : Run E}
      → ltb_ℤ (pos 0) interval ≡ true
      → rest ≡ x
      → with_ticker interval rest ≡ x
  unfolding with_ticker
  ticker_to interval e h = rw (e, with_ticker) h

  stack_to :
      {o : Option Stack} {stack : Stack} (rest : Stack → Run E)
      → o ≡ some stack
      → rest stack ≡ x
      → with_stack o rest ≡ x
  unfolding with_stack
  stack_to rest e h = rw (e, with_stack) h

exits_lem :
    {E : Type 0} (exits : List (Option ℕ)) (rest : Run E)
    → All (λ (o : Option ℕ). o ≡ some 0) exits
    → check_exit_codes exits rest ≡ rest
unfolding check_exit_codes
exits_lem [] rest h = refl
exits_lem (o ∷ exits) rest h = rw (h.0, check_exit_codes) (exits_lem exits rest h.1)

module _ {E : Type 0} (c : Calls E) (conf : Config) (raw : Bytes) (g : Given) (b : Built) where
  publish_lem :
      Finished c conf raw g b
      → publish c conf g.sha g.tmp_dir g.image g.stack ≡ (release c conf raw g b ∷ [], done)
  unfolding publish
  publish_lem f =
      obtain_to _ f.procfile
        (obtain_to _ f.dockerfile (obtain_to _ f.dryccfile (perform_to f.taken refl)))

  follow_lem :
      Finished c conf raw g b
      → follow c conf g.sha g.tmp_dir g.image g.stack ≡ (release c conf raw g b ∷ [], done)
  unfolding follow first_pod
  follow_lem f = ticker_to _ f.ticks (
      require_to _ _ f.up (
        obtain_to _ f.pods (
          attempt_to f.stream (
            attempt_to f.copy (
              require_to _ _ f.over
                (obtain_to _ f.exit_codes (exits_lem b.exits _ f.zeros ∙ publish_lem f)))))))

  launch_lem :
      Prepared c conf raw g
      → Finished c conf raw g b
      → launch c conf g.sha g.tmp_dir (tar_key conf g.sha) g.stack
        ≡ (created_job (build_job c conf raw g) ∷ release c conf raw g b ∷ [], done)
  unfolding launch
  launch_lem p f = require_to _ _ p.selector (
      require_to _ _ p.policy (
        require_to _ _ (ap (λ (r : Bytes × Result EnvRequired (Map Bytes)). r.1) p.env) (
          rw (ap (λ (r : Bytes × Result EnvRequired (Map Bytes)). r.0) p.env)
            (perform_to p.create_job (follow_lem f)))))

  upload_lem :
      Prepared c conf raw g
      → Finished c conf raw g b
      → upload c conf g.sha g.tmp_dir ≡ (
        ran (git_archive_cmd conf g.sha)
            ∷ ran (tar_cmd conf g.tmp_dir)
            ∷ put_tar (tar_key conf g.sha) g.content
            ∷ created_job (build_job c conf raw g)
            ∷ release c conf raw g b
            ∷ [],
        done,
      )
  unfolding upload run_cmd
  upload_lem p f = attempt_to p.new_client (
      attempt_to p.app_config (
        perform_to p.archive (
          perform_to p.untar (
            stack_to _ p.stack
              (obtain_to _ p.app_data (perform_to p.put_content (launch_lem p f)))))))

  pub build_lem :
      Prepared c conf raw g
      → Finished c conf raw g b
      → build c conf raw ≡ (actions c conf raw g b, done)
  unfolding build build_sha
  build_lem p f =
      rw (p.sha, build) (perform_to p.mkdir_all (obtain_to _ p.mkdir_temp (rw (upload_lem p f))))
