-- ===== src/Git/Receive.antt =====
-- pkg/git/git.go: how a push is received. Each call of the operating system is an argument of the model:
-- what it fails with, if it fails. What is done is a list of actions, each recorded whether or not it
-- fails.
pub mod Received
pub mod Hooked
pub mod Started
use builder.Base.{
  Bytes, codes, Bool, true, false, List, [], ◌∷◌, ◌++◌, map, Option, some, none, Result, ok, err,
  if◌then◌else◌, length, ◌==◌,
}
use builder.Text.Equality.{eqb}

-- What `os.Stat` says of the repository's path.
pub data Stat (E : Type 0) : Type 0 where
  directory : Stat E
  file : Stat E
  not_exist : Stat E
  stat_failed : E → Stat E

-- What the calls fail with. `errbuff` is what git-shell has written to its standard error.
pub record Calls (E : Type 0) : Type 0 where
  pub stat : Stat E
  pub mkdir_all : Option E
  pub git_init : Option E
  pub create : Option E
  pub execute : Option E
  pub chmod : Option E
  pub stdin_pipe : Option E
  pub start : Option E
  pub copy : Option E
  pub wait : Option E
  pub errbuff : Bytes

pub data Action : Type 0 where
  wrote : Bytes → Action
  made_dir : (path : Bytes) → Action
  ran_git_init : (path : Bytes) → Action
  wrote_hook : (path text : Bytes) → Action
  made_executable : (path : Bytes) → Action
  started : (command : Bytes) (env : List Bytes) → Action
  copied : Action
  removed_all : (path : Bytes) → Action

pub data ReceiveError (E : Type 0) : Type 0 where
  call_failed : E → ReceiveError E
  -- "expected directory, found file"
  found_file : ReceiveError E
  -- "did not create new repo (%s)"
  not_created : ReceiveError E → ReceiveError E
  -- "did not write pre-receive hook (%s)"
  hook_not_written : E → ReceiveError E
  -- "failed to run git pre-receive hook: %s (%s)"
  hook_failed : (errbuff : Bytes) → E → ReceiveError E
  -- errors.New(errbuff.String())
  unreported : (errbuff : Bytes) → ReceiveError E

-- What `preReceiveHookTpl` makes of the home of git.
pub hook_text : Bytes → Bytes
hook_text git_home =
    codes
      "#!/bin/bash\nset -eo pipefail\nstrip_remote_prefix() {\n    stdbuf -i0 -o0 -e0 sed \"s/^/\"$'\\e[1G'\"/\"\n}\n\nGIT_HOME="
    ++ (git_home
        ++ codes
            " \\\nSSH_CONNECTION=\"$SSH_CONNECTION\" \\\nSSH_ORIGINAL_COMMAND=\"$SSH_ORIGINAL_COMMAND\" \\\nREPOSITORY=\"$RECEIVE_REPO\" \\\nUSERNAME=\"$RECEIVE_USER\" \\\nFINGERPRINT=\"$RECEIVE_FINGERPRINT\" \\\nPOD_NAMESPACE=\"$POD_NAMESPACE\" \\\nboot git-receive | strip_remote_prefix\n")

-- A call, and what follows it if it does not fail.
pub call :
    {E : Type 0}
    → Action
    → Option E
    → (E → ReceiveError E)
    → List Action × Option (ReceiveError E)
    → List Action × Option (ReceiveError E)
call action (some e) wrap rest = (action ∷ [], some (wrap e))
call action none wrap rest = (action ∷ rest.0, rest.1)

module _ {E : Type 0} (c : Calls E) where
  -- `createRepo`, and what follows it.
  pub create_repo :
      Bytes → List Action × Option (ReceiveError E) → List Action × Option (ReceiveError E)
  unfolding call
  create_repo repo_path rest = elim c.stat [
    | directory ↦ rest
    | not_exist ↦
        call (made_dir repo_path) c.mkdir_all (λ e. not_created (call_failed e))
          (call (ran_git_init repo_path) c.git_init (λ e. not_created (call_failed e)) rest)
    | file ↦ ([], some (not_created found_file))
    | stat_failed e ↦ ([], some (not_created (call_failed e)))
  ]

  -- `createPreReceiveHook`, and what follows it. A file that cannot be created is not written.
  pub create_pre_receive_hook :
      Bytes → Bytes → List Action × Option (ReceiveError E) → List Action × Option (ReceiveError E)
  unfolding call hook_text
  create_pre_receive_hook git_home write_path rest = elim c.create [
    | some e ↦ ([], some (hook_not_written e))
    | none ↦
        call (wrote_hook write_path (hook_text git_home)) c.execute hook_not_written
          (call (made_executable write_path) c.chmod hook_not_written rest)
  ]

  -- The end of `Receive`.
  pub finish : Option (ReceiveError E)
  finish = elim c.wait [
    | some e ↦ some (hook_failed c.errbuff e)
    | none ↦ if length c.errbuff == 0 then none else some (unreported c.errbuff)
  ]

  -- What `Receive` does with git-shell.
  pub git_shell : Bytes → List Bytes → List Action × Option (ReceiveError E)
  unfolding call finish
  git_shell command env = elim c.stdin_pipe [
    | some e ↦ ([], some (call_failed e))
    | none ↦
        call (started command env) c.start call_failed (call copied c.copy call_failed ([], finish))
  ]

  -- `Receive`, where `join` is `filepath.Join` and `os_environ` what `os.Environ` gives.
  unfoldable pub receive :
      (Bytes → Bytes → Bytes)
      → List Bytes
      → (repo operation git_home fingerprint username conndata receivetype : Bytes)
      → List Action × Option (ReceiveError E)
  unfolding create_repo create_pre_receive_hook git_shell
  receive join os_environ repo operation git_home fingerprint username conndata receivetype =
      let repo_path = join git_home repo in
      let command = operation ++ (codes " '" ++ (repo ++ codes "'")) in
      let env =
        (codes "RECEIVE_USER=" ++ username)
        ∷ (codes "RECEIVE_REPO=" ++ repo)
        ∷ (codes "RECEIVE_FINGERPRINT=" ++ fingerprint)
        ∷ (codes "SSH_ORIGINAL_COMMAND=" ++ command)
        ∷ (codes "SSH_CONNECTION=" ++ conndata)
        ∷ os_environ in
      let pushed = create_repo repo_path (
        create_pre_receive_hook git_home (join repo_path (codes "hooks/pre-receive"))
          (git_shell command env)) in
      if eqb receivetype (codes "mock")
      then (wrote (codes "OK") ∷ [], none)
      else (pushed.0 ++ removed_all repo_path ∷ [], pushed.1)
