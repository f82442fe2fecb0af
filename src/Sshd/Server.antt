-- ===== src/Sshd/Server.antt =====
-- `answer`, `runReceive`, `Ping` and `sendExitStatus` of pkg/sshd/server.go: how the requests of one
-- channel are answered. What the server does on the channel is a list of effects; that a write to the
-- channel fails is only logged, and changes nothing else.
pub mod Replies
pub mod Access
mod Examples
use builder.Base.{
  take, if◌then◌else◌, err, ok, codes, Bytes, ◌++◌, ◌∷◌, [], List, some, none, Option, ◌||◌, not,
  false, true, Bool, ℕ,
}
use builder.Sshd.Lock.{InMemoryRepoLock, lock, unlock}
use builder.Sshd.Names.{NameError, clean_repo_name, clean_exec, git_pkt_line}
use builder.Text.{contains, split_2}
use builder.Text.Equality.{eqb}
use mathlib.Core.Option
use builder.Maps.{Map, get}

pub record Request : Type 0 where
  pub type : Bytes
  pub payload : Bytes

-- `git_home` and `receivetype` of `server`; the lock is threaded through.
pub record Server : Type 0 where
  pub git_home : Bytes
  pub receivetype : Bytes

-- The arguments of `git.Receive`.
pub record ReceiveCall : Type 0 where
  pub repo : Bytes
  pub operation : Bytes
  pub git_home : Bytes
  pub fingerprint : Bytes
  pub username : Bytes
  pub conndata : Bytes
  pub receivetype : Bytes

pub data Effect : Type 0 where
  replied : Bool → Effect
  wrote : Bytes → Effect
  wrote_stderr : Bytes → Effect
  sent_exit_status : ℕ → Effect
  received : ReceiveCall → Effect
  closed : Effect

-- The errors of the function that `runReceive` returns; `E` are those of `git.Receive`.
pub data ReceiveError (E : Type 0) : Type 0 where
  -- errBuildAppPerm, "user has no permission to build the app"
  build_app_perm : ReceiveError E
  receive_failed : E → ReceiveError E

-- Whether `fn` returns before the timer fires. If it does not, it has had `done` of its effects by then, or
-- all of them if they are fewer; it goes on running, and what it does from then on is not recorded here.
pub data Timing : Type 0 where
  in_time : Timing
  late : (done : ℕ) → Timing

pub data WrapError (E : Type 0) : Type 0 where
  already_locked : WrapError E
  exceeded_timeout : (repo_name : Bytes) → WrapError E
  fn_error : ReceiveError E → WrapError E

abbrev pub multiple_push : Bytes
multiple_push = codes "Another git push is ongoing"

-- `Ping`
pub ping : List Effect
ping = wrote (codes "pong") ∷ sent_exit_status 0 ∷ replied true ∷ []

module _ {E : Type 0} where
  -- `wrapInLock`, seen from the call: `fn` is what the wrapped function does and returns.
  pub wrap_in_lock :
      InMemoryRepoLock
      → Bytes
      → Timing
      → List Effect × Option (ReceiveError E)
      → InMemoryRepoLock × List Effect × Option (WrapError E)
  wrap_in_lock rl repo_name timing fn = elim (lock rl repo_name).1 [
    | err _ ↦ ((lock rl repo_name).0, [], some already_locked)
    | ok _ ↦ elim timing [
      | late done ↦ (
        (unlock (lock rl repo_name).0 repo_name).0,
        take done fn.0,
        some (exceeded_timeout repo_name),
      )
      | in_time ↦ ((unlock (lock rl repo_name).0 repo_name).0, fn.0, Option.map fn_error fn.1)
    ]
  ]

  -- What follows `wrapInLock` in `answer`.
  pub report : Option (WrapError E) → List Effect
  report (some already_locked) =
      wrote (git_pkt_line (codes "ERR " ++ (multiple_push ++ codes "\n"))) ∷ sent_exit_status 1 ∷ []
  report (some _) = sent_exit_status 1 ∷ []
  report none = sent_exit_status 0 ∷ []

-- A connection: the extensions of its permissions, the SSH_CONNECTION text, and what is not this
-- program's or is another package's: `ssh.Unmarshal` on an `ExecCmd`, and `git.Receive`.
module _ {E : Type 0} (s : Server) (extensions : Map Bytes) (condata : Bytes)
    (unmarshal : Bytes → Bytes) (receive : ReceiveCall → Option E) where
  pub receive_call : Bytes → Bytes → ReceiveCall
  receive_call repo_name operation = record {
    repo = repo_name ++ codes ".git";
    operation = operation;
    git_home = s.git_home;
    fingerprint = get (codes "fingerprint") extensions;
    username = get (codes "user") extensions;
    conndata = condata;
    receivetype = s.receivetype;
  }

  pub run_receive : Bytes → Bytes → List Effect × Option (ReceiveError E)
  unfolding receive_call
  run_receive repo_name operation =
      if not (contains (get (codes "apps") extensions) repo_name)
      then (replied true ∷ [], some build_app_perm)
      else (
        replied true ∷ received (receive_call repo_name operation) ∷ [],
        Option.map receive_failed (receive (receive_call repo_name operation)),
      )

  -- The case of "git-receive-pack" and "git-upload-pack". An error is what `answer` returns.
  pub answer_git :
      InMemoryRepoLock
      → Timing
      → Bytes × Option Bytes
      → InMemoryRepoLock × List Effect × Option NameError
  unfolding wrap_in_lock run_receive report
  answer_git rl timing (command, none) = (rl, replied false ∷ sent_exit_status 0 ∷ [], none)
  answer_git rl timing (command, some path) = elim (clean_repo_name path) [
    | err e ↦ (rl, wrote_stderr (codes "No repo given") ∷ [], some e)
    | ok repo_name ↦
        let (rl', effects, failure) =
          wrap_in_lock rl repo_name timing (run_receive repo_name command) in
        (rl', effects ++ report failure, none)
  ]

  -- The case of "exec".
  unfoldable pub answer_exec :
      InMemoryRepoLock → Timing → Bytes → InMemoryRepoLock × List Effect × Option NameError
  unfolding answer_git ping
  answer_exec rl timing payload =
      let parts = split_2 (clean_exec unmarshal payload) b' ' in
      if eqb parts.0 (codes "ping")
      then (rl, ping, none)
      else if eqb parts.0 (codes "git-receive-pack") || eqb parts.0 (codes "git-upload-pack")
      then answer_git rl timing parts
      else (rl, replied false ∷ [], none)

  -- The loop of `answer`, over the requests that come in on the channel. Every case of "exec" returns.
  unfoldable pub answer_loop :
      InMemoryRepoLock
      → Timing
      → List Request
      → List Effect
      → InMemoryRepoLock × List Effect × Option NameError
  answer_loop rl timing [] done = (rl, done, none)
  answer_loop rl timing (req ∷ requests) done =
      let next = λ (b : Bool). answer_loop rl timing requests (done ++ replied b ∷ []) in
      let (rl', effects, failure) = answer_exec rl timing req.payload in
      if eqb req.type (codes "env")
      then next true
      else if eqb req.type (codes "exec")
      then (rl', done ++ effects, failure)
      else next false

  -- The deferred `channel.Close()` runs last.
  unfoldable pub answer :
      InMemoryRepoLock → Timing → List Request → InMemoryRepoLock × List Effect × Option NameError
  unfolding answer_loop
  answer rl timing requests =
      let (rl', effects, failure) = answer_loop rl timing requests [] in
      (rl', effects ++ closed ∷ [], failure)
