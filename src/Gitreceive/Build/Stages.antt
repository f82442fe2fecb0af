-- ===== src/Gitreceive/Build/Stages.antt =====
-- The stages of a build: what each recorded action is, in their order.
use builder.Base.{
  ◌++◌, ℕ, Bytes, codes, ◌≡◌, refl, List, [], ◌∷◌, All, Option, some, none, Result, ok, true,
}
use builder.Maps.{Map, get, insert}
use builder.Git.Sha.{Sha}
use builder.Controller.{check_api_compat}
use builder.K8s.{pull_policy_from_string, security_context_from_privileged}
use builder.Gitreceive.Calls.{Calls, get_procfile, get_dockerfile}
use builder.Gitreceive.Command.{Command, abs_app_tgz, git_archive_cmd, tar_cmd, tar_key}
use builder.Gitreceive.Config.{Config, app, session_idle_interval}
use builder.Gitreceive.NodeSelector.{build_builder_pod_node_selector}
use builder.Gitreceive.Stack.{Stack, get_stack}
use builder.Gitreceive.Imagebuilder.{EnvRequired, get_imagebuilder_env}
use builder.Gitreceive.Job.{imagebuilder_job_name, create_builder_job}
use builder.Gitreceive.Pod.{wait_for_pod, wait_for_pod_end}
use builder.Gitreceive.Build.{
  Outcome, done, Action, ran, put_tar, created_job, created_build, Run, publish, follow, launch,
  upload, run_cmd,
}
use builder.Gitreceive.Build.Trace.{Stage, IsTrace, early-IsTrace, end-IsTrace, perform-IsTrace}
use builder.Gitreceive.Build.Early.{
  attempt_lem, obtain_lem, require_lem, first_pod_lem, check_exit_codes_lem, with_ticker_lem,
  with_stack_lem,
}

module _ {E : Type 0} (c : Calls E) (conf : Config) where
  -- The pod of the job came up and ended, and its containers exited with 0.
  abbrev pub HasBuilt : Type 0
  HasBuilt =
      (wait_for_pod c.start_polls ≡ ok tt)
      × (wait_for_pod_end c.end_polls ≡ ok tt)
      × ((exits : List (Option ℕ)) × (c.exit_codes ≡ ok exits)
          × All (λ (o : Option ℕ). o ≡ some 0) exits)

  -- The controller took the release, or differs from this program in its version only.
  abbrev pub IsTaken : Type 0
  IsTaken = check_api_compat c.is_api_mismatch c.create_build ≡ none

  module _ (sha : Sha) (tmp_dir : Bytes) where
    -- The stack is chosen by what is in the directory and by the configuration of the app.
    abbrev pub IsChosen : Stack → Type 0
    IsChosen stack = get_stack c.exists c.stacks c.loaded_stacks tmp_dir c.app_config.0 ≡ some stack

    -- `getImagebuilderEnv`, for the image that is named after the app and the short hash
    abbrev pub image_and_env : Bytes × Result EnvRequired (Map Bytes)
    image_and_env =
        get_imagebuilder_env (app conf ++ (codes ":git-" ++ sha.short)) (app conf) c.environ

    abbrev pub IsCommand : Command → Action → Type 0
    IsCommand cmd action = action ≡ ran cmd

    -- The archive that was read is put under the key of the app and the short hash.
    abbrev pub IsUpload : Action → Type 0
    IsUpload action =
        (content : Bytes) × (c.read_file (abs_app_tgz conf) ≡ ok content)
        × (action ≡ put_tar (tar_key conf sha) content)

    -- The job builds that archive with the image of the stack that is chosen.
    abbrev pub IsJob : Action → Type 0
    IsJob action =
        (stack : Stack) × IsChosen stack
        × ((env : Map Bytes) × (image_and_env.1 ≡ ok env)
            × ((policy : Bytes) × (pull_policy_from_string conf.imagebuilder_image_pull_policy
                  ≡ ok policy)
                × ((selector : Map Bytes) × (build_builder_pod_node_selector
                        conf.builder_pod_node_selector
                      ≡ ok selector)
                    × (action
                        ≡ created_job (
                            create_builder_job c.ttl_setting conf.debug
                              (imagebuilder_job_name c.uid (app conf) sha.short) conf.pod_namespace
                              c.app_config.0 (tar_key conf sha) sha.short image_and_env.0
                              (codes "drycc-imagebuilder") (get (codes "image") stack)
                              (insert (codes "DRYCC_STACK") (get (codes "name") stack) env) policy
                              (security_context_from_privileged true) selector)))))

    -- The release names the image and the stack of the job, which has built, and has the files of the
    -- directory.
    abbrev pub IsRelease : Action → Type 0
    IsRelease action =
        HasBuilt
        × ((stack : Stack) × IsChosen stack
            × ((procfile : Map Bytes) × (get_procfile c tmp_dir ≡ ok procfile)
                × ((dryccfile : Bytes) × (c.parse_dryccfile (tmp_dir ++ codes "/.drycc")
                      ≡ ok dryccfile)
                    × ((dockerfile : Bytes) × (get_dockerfile c tmp_dir stack ≡ ok dockerfile)
                        × (action
                            ≡ created_build conf.username (app conf) image_and_env.0
                                (get (codes "name") stack) sha.short procfile dryccfile
                                dockerfile)))))

    -- The stages of the builder's work, each with the call that it may fail in.
    abbrev release_stages : List Stage
    release_stages = (IsRelease, IsTaken) ∷ []

    abbrev job_stages : List Stage
    job_stages = (IsJob, c.create_job ≡ none) ∷ release_stages

    abbrev upload_stages : List Stage
    upload_stages = (IsUpload, c.put_content ≡ none) ∷ job_stages

    abbrev pub stages : List Stage
    stages =
        (IsCommand (git_archive_cmd conf sha), c.archive ≡ none)
        ∷ (IsCommand (tar_cmd conf tmp_dir), c.untar ≡ none)
        ∷ upload_stages

    abbrev Traces : List Stage → Run E → Type 0
    Traces ps r = IsTrace ps r.0 r.1

    early-Traces : (ps : List Stage) (o : Outcome E) → ¬ (o ≡ done) → Traces ps ([], o)
    early-Traces ps o h = early-IsTrace ps o h

    publish-Traces :
        (stack : Stack)
        → IsChosen stack
        → HasBuilt
        → Traces release_stages (publish c conf sha tmp_dir image_and_env.0 stack)
    unfolding publish
    publish-Traces stack chosen built =
        let release = Traces release_stages in
        let early = early-Traces release_stages in
        obtain_lem release early (get_procfile c tmp_dir) _ λ procfile p.
          obtain_lem release early (get_dockerfile c tmp_dir stack) _ λ dockerfile d.
            obtain_lem release early (c.parse_dryccfile (tmp_dir ++ codes "/.drycc")) _
              λ dryccfile y.
                perform-IsTrace IsRelease [] _ _ ([], done)
                  (built, (stack, chosen, (procfile, p, (dryccfile, y, (dockerfile, d, refl)))))
                  (λ taken. end-IsTrace done)

    follow-Traces :
        (stack : Stack)
        → IsChosen stack
        → Traces release_stages (follow c conf sha tmp_dir image_and_env.0 stack)
    unfolding follow
    follow-Traces stack chosen =
        let release = Traces release_stages in
        let early = early-Traces release_stages in
        with_ticker_lem release early (session_idle_interval conf) _ λ ticks.
          require_lem release early _ (wait_for_pod c.start_polls) _ λ u up.
            obtain_lem release early c.pods _ λ pods listed.
              first_pod_lem release early pods _ λ pod others first.
                attempt_lem release early c.stream _ λ streamed.
                  attempt_lem release early c.copy _ λ copied.
                    require_lem release early _ (wait_for_pod_end c.end_polls) _ λ v over.
                      obtain_lem release early c.exit_codes _ λ exits got.
                        check_exit_codes_lem release early exits _
                          λ zeros. publish-Traces stack chosen (up, over, (exits, got, zeros))

    launch-Traces :
        (stack : Stack)
        → IsChosen stack
        → Traces job_stages (launch c conf sha tmp_dir (tar_key conf sha) stack)
    unfolding launch
    launch-Traces stack chosen =
        let job = Traces job_stages in
        let early = early-Traces job_stages in
        require_lem job early _ (build_builder_pod_node_selector conf.builder_pod_node_selector) _
          λ selector s.
            require_lem job early _ (pull_policy_from_string conf.imagebuilder_image_pull_policy) _
              λ policy p. require_lem job early _ image_and_env.1 _ λ env e.
                perform-IsTrace IsJob release_stages _ c.create_job _
                  (stack, chosen, (env, e, (policy, p, (selector, s, refl))))
                  (λ made. follow-Traces stack chosen)

    pub upload-IsTrace : IsTrace stages (upload c conf sha tmp_dir).0 (upload c conf sha tmp_dir).1
    unfolding upload run_cmd
    upload-IsTrace =
        let uploads = Traces upload_stages in
        attempt_lem (Traces stages) (early-Traces stages) c.new_client _ λ client.
          attempt_lem (Traces stages) (early-Traces stages)
            (check_api_compat c.is_api_mismatch c.app_config.1) _
            λ configured. perform-IsTrace _ _ _ c.archive _ refl λ archived.
              perform-IsTrace _ upload_stages _ c.untar _ refl λ unpacked.
                with_stack_lem uploads (early-Traces upload_stages)
                  (get_stack c.exists c.stacks c.loaded_stacks tmp_dir c.app_config.0) _
                  λ stack chosen.
                    obtain_lem uploads (early-Traces upload_stages) (c.read_file (abs_app_tgz conf))
                      _
                      λ content got.
                        perform-IsTrace IsUpload _ _ c.put_content _ (content, got, refl)
                          (λ put. launch-Traces stack chosen)
