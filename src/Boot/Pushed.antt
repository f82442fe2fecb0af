-- ===== src/Boot/Pushed.antt =====
-- From the key of a connection to the releases of its pushes: the connection, the channel, `git.Receive`, the
-- hook that git runs, and the git-receive command.
mod Examples
use builder.Base.{
  All, All-In, In, Bytes, codes, Bool, true, List, [], ◌∷◌, ◌++◌, Option, some, none, Result, ok,
  ◌≡◌, refl, sym, ap, ◌∙◌, arith,
}
use builder.Text.{contains, has_prefix, join}
use builder.Maps.{Map}
use builder.Controller.{Client}
use builder.Git.Receive.Started.{push_env, started_env}
use builder.Git.Receive as Receive
use builder.Git.Hook.{getenv, hook_env}
use builder.Git.Hook.Passed.{hook_env_push, reserved, HasNone}
use builder.K8s.Client.{Attempt}
use builder.Gitreceive.Config.{Config, app}
use builder.Gitreceive.Config.App.{app_name_lem}
use builder.Gitreceive.Calls.{Calls}
use builder.Gitreceive.Build.{Action, created_build}
use builder.Sshd.Auth.{UserInfo, auth_key}
use builder.Sshd.Lock.{InMemoryRepoLock}
use builder.Sshd.Server.{Server, Request, ReceiveCall, Timing, Effect, received, answer}
use builder.Sshd.Connection.{NewChannel, ConnEffect, answering, handle_conn}
use builder.Sshd.Connection.Opened.{conn_with, shaken}
use builder.Sshd.Connection.Authenticated.{IsOf, AnswersAs, auth_key-AnswersAs}
use builder.Boot.{git_receive_action}
use builder.Boot.Hook.{IsReleased, git_receive_action-IsReleased}

-- What `envconfig.Process` documents: the fields of the configuration that are required have the values of
-- the variables in their tags, unless there are variables of these names with the command's name before them.
pub record ReadsTags {E : Type 0} (process : (Bytes → Option Bytes) → Result E Config)
    : Type 0 where
  pub repository :
      (env : Bytes → Option Bytes) (cnf : Config)
      → process env ≡ ok cnf
      → env (codes "DRYCC-BUILDER-GIT-RECEIVE_REPOSITORY") ≡ none
      → env (codes "REPOSITORY") ≡ some cnf.repository
  pub ssh_original_command :
      (env : Bytes → Option Bytes) (cnf : Config)
      → process env ≡ ok cnf
      → env (codes "DRYCC-BUILDER-GIT-RECEIVE_SSH_ORIGINAL_COMMAND") ≡ none
      → env (codes "SSH_ORIGINAL_COMMAND") ≡ some cnf.ssh_original_command
  pub username :
      (env : Bytes → Option Bytes) (cnf : Config)
      → process env ≡ ok cnf
      → env (codes "DRYCC-BUILDER-GIT-RECEIVE_USERNAME") ≡ none
      → env (codes "USERNAME") ≡ some cnf.username

-- SSH_ORIGINAL_COMMAND, as `git.Receive` sets it.
abbrev pub original_command : ReceiveCall → Bytes
original_command c = c.operation ++ (codes " '" ++ (c.repo ++ codes "'"))

-- A release for a push, as the user, of an app whose name stands in the text of the user's apps.
abbrev pub IsReleasedAs : UserInfo → ReceiveCall → Action → Type 0
IsReleasedAs user c
      (created_build username app_name image stack_name short_sha procfile dryccfile dockerfile) =
    (has_prefix (original_command c) (codes "git-receive-pack") ≡ true)
    × (username ≡ user.username)
    × (contains (join user.apps (codes ", ")) app_name ≡ true)
IsReleasedAs user c _ = Unit

module _ {D Q E : Type 0} (calls : D → Q → Bytes → List Action → Calls E) (user : UserInfo)
    (fp : Bytes) (c : ReceiveCall) where
  -- What a push of the user has told the hook.
  actions-IsReleasedAs :
      (cnf : Config) (lines : List Bytes) (actions : List Action)
      → cnf.repository ≡ c.repo
      → cnf.username ≡ c.username
      → cnf.ssh_original_command ≡ original_command c
      → IsOf user fp (received c)
      → All (IsReleased calls cnf lines) actions
      → All (IsReleasedAs user c) actions
  unfolding app
  actions-IsReleasedAs cnf lines [] repo name original of h = tt
  actions-IsReleasedAs cnf lines (action ∷ actions) repo name original of h =
      (one action h.0, actions-IsReleasedAs cnf lines actions repo name original of h.1)
    where
      one : (a : Action) → IsReleased calls cnf lines a → IsReleasedAs user c a
      one (created_build username app_name image stack_name short_sha procfile dryccfile dockerfile)
            (push, as_user, as_app, rest) =
          (
            rw (← original) push,
            as_user ∙ (name ∙ of.3),
            rw (as_app, repo, of.1) (rw ((app_name_lem of.0 [] tt).2) of.2),
          )
      one (builder.Gitreceive.Build.put_tar key content) h = tt
      one (builder.Gitreceive.Build.created_job job) h = tt
      one (builder.Gitreceive.Build.removed_all path) h = tt
      one (builder.Gitreceive.Build.made_dirs path) h = tt
      one (builder.Gitreceive.Build.made_temp path) h = tt
      one (builder.Gitreceive.Build.ran cmd) h = tt

module _ {B H : Type 0} (git_calls : Receive.Calls H) (join_paths : Bytes → Bytes → Bytes)
    (os_environ : List Bytes) (process : (Bytes → Option Bytes) → Result B Config)
    (tags : ReadsTags process) where
  -- The configuration of the hook that a call of `git.Receive` leads to.
  hook_config :
      (c : ReceiveCall) (command : Bytes) (env : List Bytes) (cnf : Config)
      → HasNone os_environ reserved
      → In
          (Receive.started command env)
          (Receive.receive git_calls join_paths os_environ c.repo c.operation c.git_home
            c.fingerprint c.username c.conndata c.receivetype).0
      → process (hook_env c.git_home env) ≡ ok cnf
      → (cnf.repository ≡ c.repo)
        × (cnf.username ≡ c.username)
        × (cnf.ssh_original_command ≡ original_command c)
  hook_config c command env cnf free here read =
      let same =
        started_env git_calls join_paths os_environ c.repo c.operation c.git_home c.fingerprint
          c.username c.conndata c.receivetype command env here in
      let (repo, user, original, no_repo, no_user, no_original) =
        hook_env_push c.git_home os_environ c.repo c.operation c.fingerprint c.username c.conndata
          free in
      let told : process (
            hook_env c.git_home
              (push_env os_environ c.repo c.operation c.fingerprint c.username c.conndata))
          ≡ ok cnf =
        rw (← same) read in
      (
        cc (tags.repository _ cnf told no_repo, repo),
        cc (tags.username _ cnf told no_user, user),
        cc (tags.ssh_original_command _ cnf told no_original, original),
      )

module _ {B C E F G H : Type 0} (s : Server) (unmarshal : Bytes → Bytes)
    (receive : ReceiveCall → Option E) (split_host_port : Bytes → Bytes × Bytes)
    (is_api_mismatch : F → Bool) (user_from_key : Client C → Bytes → UserInfo × Option F)
    (git_calls : Receive.Calls H) (join_paths : Bytes → Bytes → Bytes) (os_environ : List Bytes)
    (process : (Bytes → Option Bytes) → Result B Config) (tags : ReadsTags process) where
  module _ {D Q A : Type 0} (hostname : Bytes → Option Bytes) (is_ip : Bytes → Bool)
      (env : Bytes → Bytes) (create : Map Bytes → Result A D)
      (calls : D → Q → Bytes → List Action → Calls A) where
    -- On a connection with the permissions that `AuthKey` gave for a key: for each channel that is
    -- answered, each call of `git.Receive` in its answer, and each git-shell that the call starts, where the
    -- server's own environment has none of the variables by which it tells git-shell of a push, nor the
    -- same with the prefix of the hook's command, and where the hook's configuration is read from the variables in its tags. Whatever lines the hook reads,
    -- and however it ends: it announces releases only for a push, not for a fetch, only as the user whom the
    -- controller named for the key's fingerprint, and only of apps whose name stands in the text of this user's apps.
    pub auth_key-IsReleasedAs :
        (client : Client C) (failure : Option F) (fp : Bytes) (extensions : Map Bytes)
        (channels : List (NewChannel G)) (remote local : Bytes) (requests : List Request)
        (condata : Bytes) (carried : Map Bytes) (rl : InMemoryRepoLock) (timing : Timing)
        (c : ReceiveCall) (command : Bytes) (git_env : List Bytes) (cnf : Config)
        (cluster : Attempt A Q) (lines : List Bytes) (scan_error : Option A)
        → auth_key is_api_mismatch user_from_key (client, failure) fp ≡ ok extensions
        → In
            (answering requests condata carried)
            (handle_conn split_host_port
              (conn_with split_host_port remote local (ok (shaken extensions channels)))).0
        → In (received c) (answer s carried condata unmarshal receive rl timing requests).1
        → HasNone os_environ reserved
        → In
            (Receive.started command git_env)
            (Receive.receive git_calls join_paths os_environ c.repo c.operation c.git_home
              c.fingerprint c.username c.conndata c.receivetype).0
        → process (hook_env c.git_home git_env) ≡ ok cnf
        → All
            (IsReleasedAs (user_from_key client fp).0 c)
            (git_receive_action hostname is_ip env create calls (ok cnf) cluster lines scan_error).0
    auth_key-IsReleasedAs client failure fp extensions channels remote local requests condata
          carried rl timing c command git_env cnf cluster lines scan_error accepted answered pushed
          free shell read =
        let user = (user_from_key client fp).0 in
        let answers =
          All-In (AnswersAs s unmarshal receive user fp) (answering requests condata carried) _
            (auth_key-AnswersAs s unmarshal receive split_host_port is_api_mismatch user_from_key
              client failure fp extensions channels remote local accepted)
            answered in
        let of = All-In (IsOf user fp) (received c) _ (answers rl timing) pushed in
        let (repo, name, original) =
          hook_config git_calls join_paths os_environ process tags c command git_env cnf free shell
            read in
        actions-IsReleasedAs calls user fp c cnf lines _ repo name original of (
          git_receive_action-IsReleased hostname is_ip env create calls cnf cluster lines
            scan_error)
