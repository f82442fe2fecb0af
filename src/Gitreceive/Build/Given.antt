-- ===== src/Gitreceive/Build/Given.antt =====
-- The calls of a build that all succeed, and what the build then does.
use builder.Base.{◌++◌, ℕ, Bytes, codes, ◌≡◌, List, [], ◌∷◌, All, Option, some, none, ok, true}
use builder.Git.Sha.{Sha, new_sha}
use builder.Controller.{check_api_compat}
use builder.K8s.{security_context_from_privileged, pull_policy_from_string}
use builder.Maps.{Map, get, insert}
use builder.Gitreceive.Config.{Config, app}
use builder.Gitreceive.NodeSelector.{build_builder_pod_node_selector}
use builder.Gitreceive.Stack.{Stack, get_stack}
use builder.Gitreceive.Imagebuilder.{get_imagebuilder_env}
use builder.Gitreceive.Job.{Job, create_builder_job, imagebuilder_job_name}
use builder.Gitreceive.Pod.{wait_for_pod, wait_for_pod_end}
use builder.Base.Int.{pos, ltb_ℤ}
use builder.Gitreceive.Config.{session_idle_interval}
use builder.Gitreceive.Command.{tar_key, abs_app_tgz, build_dir, git_archive_cmd, tar_cmd}
use builder.Gitreceive.Build.{
  ran, made_temp, made_dirs, Action, put_tar, created_job, created_build, removed_all,
}
use builder.Gitreceive.Calls.{Calls, get_procfile, get_dockerfile}

-- What the calls of a build that all succeed give, up to the job.
pub record Given : Type 0 where
  pub sha : Sha
  pub tmp_dir : Bytes
  pub stack : Stack
  pub content : Bytes
  pub selector : Map Bytes
  pub policy : Bytes
  pub image : Bytes
  pub builder_env : Map Bytes

-- What they give from the job on.
pub record Built : Type 0 where
  pub pod : Bytes
  pub pods : List Bytes
  pub exits : List (Option ℕ)
  pub procfile : Map Bytes
  pub dryccfile : Bytes
  pub dockerfile : Bytes

module _ {E : Type 0} (c : Calls E) (conf : Config) (raw : Bytes) (g : Given) where
  -- What comes before the job.
  pub record Prepared : Type 0 where
    pub sha : new_sha raw ≡ some (ok g.sha)
    pub mkdir_all : c.mkdir_all ≡ none
    pub mkdir_temp : c.mkdir_temp (build_dir conf) ≡ ok g.tmp_dir
    pub new_client : c.new_client ≡ none
    pub app_config : check_api_compat c.is_api_mismatch c.app_config.1 ≡ none
    pub archive : c.archive ≡ none
    pub untar : c.untar ≡ none
    pub stack : get_stack c.exists c.stacks c.loaded_stacks g.tmp_dir c.app_config.0 ≡ some g.stack
    pub app_data : c.read_file (abs_app_tgz conf) ≡ ok g.content
    pub put_content : c.put_content ≡ none
    pub selector : build_builder_pod_node_selector conf.builder_pod_node_selector ≡ ok g.selector
    pub policy : pull_policy_from_string conf.imagebuilder_image_pull_policy ≡ ok g.policy
    pub env :
        get_imagebuilder_env (app conf ++ (codes ":git-" ++ g.sha.short)) (app conf) c.environ
        ≡ (g.image, ok g.builder_env)
    pub create_job : c.create_job ≡ none

  -- What comes after it.
  pub record Finished (b : Built) : Type 0 where
    pub ticks : ltb_ℤ (pos 0) (session_idle_interval conf) ≡ true
    pub up : wait_for_pod c.start_polls ≡ ok tt
    pub pods : c.pods ≡ ok (b.pod ∷ b.pods)
    pub stream : c.stream ≡ none
    pub copy : c.copy ≡ none
    pub over : wait_for_pod_end c.end_polls ≡ ok tt
    pub exit_codes : c.exit_codes ≡ ok b.exits
    pub zeros : All (λ (o : Option ℕ). o ≡ some 0) b.exits
    pub procfile : get_procfile c g.tmp_dir ≡ ok b.procfile
    pub dockerfile : get_dockerfile c g.tmp_dir g.stack ≡ ok b.dockerfile
    pub dryccfile : c.parse_dryccfile (g.tmp_dir ++ codes "/.drycc") ≡ ok b.dryccfile
    pub taken : check_api_compat c.is_api_mismatch c.create_build ≡ none

  abbrev pub release : Built → Action
  release b =
      created_build conf.username (app conf) g.image (get (codes "name") g.stack) g.sha.short
        b.procfile b.dryccfile b.dockerfile

  abbrev pub build_job : Job
  build_job =
      create_builder_job c.ttl_setting conf.debug
        (imagebuilder_job_name c.uid (app conf) g.sha.short) conf.pod_namespace c.app_config.0
        (tar_key conf g.sha) g.sha.short g.image (codes "drycc-imagebuilder")
        (get (codes "image") g.stack)
        (insert (codes "DRYCC_STACK") (get (codes "name") g.stack) g.builder_env) g.policy
        (security_context_from_privileged true) g.selector

  -- All that the build then does.
  abbrev pub actions : Built → List Action
  actions b =
      made_dirs (build_dir conf)
      ∷ made_temp g.tmp_dir
      ∷ ran (git_archive_cmd conf g.sha)
      ∷ ran (tar_cmd conf g.tmp_dir)
      ∷ put_tar (tar_key conf g.sha) g.content
      ∷ created_job build_job
      ∷ release b
      ∷ removed_all g.tmp_dir
      ∷ []
