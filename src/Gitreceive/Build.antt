-- ===== src/Gitreceive/Build.antt =====
-- `build` of pkg/gitreceive/build.go: the pipeline from a revision to a release. The calls of other
-- programs are arguments of the model: what each gives or fails with. What changes the store, the cluster,
-- the controller or the file system for good is a list of actions, each recorded whether or not it fails.
pub mod Early
pub mod Trace
pub mod Stages
pub mod Traced
pub mod Published
pub mod Given
pub mod Succeeds
pub mod Done
mod Examples
use builder.Base.{
  ℕ, Bytes, codes, Bool, List, [], ◌∷◌, ◌++◌, Option, some, none, Result, ok, err, if◌then◌else◌,
  ◌==◌,
}
use builder.Text.Equality.{eqb}
use builder.Base.{◌>>=◌}
use builder.Maps.{Map, get, insert}
use builder.Git.Sha.{Sha, InvalidGitSha, new_sha}
use builder.Controller.{check_api_compat}
use builder.Gitreceive.Calls.{Calls, get_procfile, get_dockerfile}
use builder.Gitreceive.Command.{Command, build_dir, abs_app_tgz, git_archive_cmd, tar_cmd, tar_key}
use builder.K8s.{InvalidPullPolicy, pull_policy_from_string, security_context_from_privileged}
use builder.Base.Int.{ℤ, pos, ltb_ℤ}
use builder.Gitreceive.Config.{Config, app, session_idle_interval}
use builder.Gitreceive.NodeSelector.{InvalidNodeSelector, build_builder_pod_node_selector}
use builder.Gitreceive.Stack.{Stack, ConfigValue, get_stack}
use builder.Gitreceive.Imagebuilder.{EnvRequired, get_imagebuilder_env}
use builder.Gitreceive.Job.{Job, imagebuilder_job_name, create_builder_job}
use builder.Gitreceive.Pod.{Pod, WaitError, wait_for_pod, wait_for_pod_end}

pub data BuildError (E : Type 0) : Type 0 where
  invalid_sha : InvalidGitSha → BuildError E
  call_failed : E → BuildError E
  node_selector_failed : InvalidNodeSelector → BuildError E
  pull_policy_failed : InvalidPullPolicy → BuildError E
  env_failed : EnvRequired → BuildError E
  wait_failed : WaitError → BuildError E
  -- "build pod exited with code %d, stopping build"
  exited : (code : ℕ) → BuildError E

pub data Outcome (E : Type 0) : Type 0 where
  done : Outcome E
  failed : BuildError E → Outcome E
  panicked : Outcome E

pub data Action : Type 0 where
  made_dirs : (path : Bytes) → Action
  made_temp : (path : Bytes) → Action
  ran : Command → Action
  put_tar : (key content : Bytes) → Action
  created_job : Job → Action
  created_build :
      (username app_name image stack_name short_sha : Bytes) (procfile : Map Bytes)
      (dryccfile dockerfile : Bytes)
      → Action
  removed_all : (path : Bytes) → Action

abbrev pub Run : Type 0 → Type 0
Run E = List Action × Outcome E

abbrev pub stop : {E : Type 0} → BuildError E → Run E
stop e = ([], failed e)

-- A call that records nothing, and what follows it if it does not fail.
pub attempt : {E : Type 0} → Option E → Run E → Run E
attempt none rest = rest
attempt (some e) rest = stop (call_failed e)

-- A call that is recorded.
pub perform : {E : Type 0} → Action → Option E → Run E → Run E
perform action none rest = (action ∷ rest.0, rest.1)
perform action (some e) rest = (action ∷ [], failed (call_failed e))

-- `run`
run_cmd : {E : Type 0} → Command → Option E → Run E → Run E
unfolding perform
run_cmd cmd failure rest = perform (ran cmd) failure rest

-- A call that gives a value.
pub obtain : {E A : Type 0} → Result E A → (A → Run E) → Run E
obtain (ok a) rest = rest a
obtain (err e) rest = stop (call_failed e)

-- A step of the program's own that may fail.
pub require : {E F A : Type 0} → (F → BuildError E) → Result F A → (A → Run E) → Run E
require wrap (ok a) rest = rest a
require wrap (err e) rest = stop (wrap e)

-- The loop over the statuses of the containers.
pub check_exit_codes : {E : Type 0} → List (Option ℕ) → Run E → Run E
check_exit_codes [] rest = rest
check_exit_codes (none ∷ codes) rest = ([], panicked)
check_exit_codes (some code ∷ codes) rest =
    let next = check_exit_codes codes rest in if code == 0 then next else stop (exited code)

-- podList.Items[0]
pub first_pod : {E : Type 0} → List Bytes → Run E → Run E
first_pod [] rest = ([], panicked)
first_pod (pod ∷ pods) rest = rest

-- The ticker of `progress`, in a wait and in the launch: `time.NewTicker` panics on an interval that is not
-- positive. Both have the same interval.
pub with_ticker : {E : Type 0} → ℤ → Run E → Run E
with_ticker interval rest = if ltb_ℤ (pos 0) interval then rest else ([], panicked)

-- A stack that has been chosen, unless the choice panics.
pub with_stack : {E : Type 0} → Option Stack → (Stack → Run E) → Run E
with_stack none rest = ([], panicked)
with_stack (some stack) rest = rest stack

module _ {E : Type 0} (c : Calls E) (conf : Config) (sha : Sha) (tmp_dir : Bytes) where
  -- From the files of the app to the release.
  pub publish : Bytes → Stack → Run E
  unfolding attempt perform obtain check_api_compat app
  publish image stack = obtain (get_procfile c tmp_dir) λ procfile.
      obtain (get_dockerfile c tmp_dir stack) λ dockerfile.
        obtain (c.parse_dryccfile (tmp_dir ++ codes "/.drycc")) λ dryccfile.
          perform
            (created_build conf.username (app conf) image (get (codes "name") stack) sha.short
              procfile dryccfile dockerfile)
            (check_api_compat c.is_api_mismatch c.create_build) ([], done)

  -- From the creation of the job to the exit codes.
  pub follow : Bytes → Stack → Run E
  unfolding attempt obtain require first_pod check_exit_codes publish with_ticker
      session_idle_interval
  follow image stack = with_ticker (session_idle_interval conf) (
      require wait_failed (wait_for_pod c.start_polls) λ up. obtain c.pods λ pods. first_pod pods (
        attempt c.stream (
          attempt c.copy (
            require wait_failed (wait_for_pod_end c.end_polls)
              λ over. obtain c.exit_codes λ exits. check_exit_codes exits (publish image stack)))))

  -- From the node selector to the job.
  pub launch : (key : Bytes) → Stack → Run E
  unfolding require perform follow
  launch key stack =
      require node_selector_failed (build_builder_pod_node_selector conf.builder_pod_node_selector)
        λ selector.
          require pull_policy_failed (pull_policy_from_string conf.imagebuilder_image_pull_policy)
            λ policy.
              let image = app conf ++ (codes ":git-" ++ sha.short) in
              let found = get_imagebuilder_env image (app conf) c.environ in
              require env_failed found.1 λ env.
                perform
                  (created_job (
                    create_builder_job c.ttl_setting conf.debug
                      (imagebuilder_job_name c.uid (app conf) sha.short) conf.pod_namespace
                      c.app_config.0 key sha.short found.0 (codes "drycc-imagebuilder")
                      (get (codes "image") stack)
                      (insert (codes "DRYCC_STACK") (get (codes "name") stack) env) policy
                      (security_context_from_privileged Bool.true) selector))
                  c.create_job (follow found.0 stack)

  -- From the client of the controller to the upload.
  pub upload : Run E
  unfolding attempt obtain perform run_cmd launch with_stack git_archive_cmd tar_cmd abs_app_tgz
      tar_key
  upload = attempt c.new_client (
      attempt (check_api_compat c.is_api_mismatch c.app_config.1) (
        run_cmd (git_archive_cmd conf sha) c.archive (
          run_cmd (tar_cmd conf tmp_dir) c.untar (
            with_stack (get_stack c.exists c.stacks c.loaded_stacks tmp_dir c.app_config.0) λ stack.
              obtain (c.read_file (abs_app_tgz conf)) λ content.
                perform (put_tar (tar_key conf sha) content) c.put_content
                  (launch (tar_key conf sha) stack)))))

module _ {E : Type 0} (c : Calls E) (conf : Config) (sha : Sha) where
  -- What follows the test of the hash. The temporary directory is removed at the end, however it ends.
  pub build_sha : Run E
  unfolding perform obtain upload build_dir
  build_sha = perform (made_dirs (build_dir conf)) c.mkdir_all (
      obtain (c.mkdir_temp (build_dir conf)) λ tmp_dir. (
        made_temp tmp_dir ∷ ((upload c conf sha tmp_dir).0 ++ removed_all tmp_dir ∷ []),
        (upload c conf sha tmp_dir).1,
      ))

-- `build`
unfoldable pub build : {E : Type 0} → Calls E → Config → Bytes → Run E
unfolding build_sha
build c conf raw_git_sha = elim (new_sha raw_git_sha) [
  | none ↦ ([], panicked)
  | some (err e) ↦ stop (invalid_sha e)
  | some (ok sha) ↦ build_sha c conf sha
]
