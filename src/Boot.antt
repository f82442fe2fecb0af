-- ===== src/Boot.antt =====
-- boot.go and pkg/builder.go: the two commands, and the status of the SSH server. What the libraries that
-- they call give is an argument of the model: the environment's configuration, the driver of the store, the
-- client of the cluster, and which of the three goroutines is the first to send.
pub mod Listening
pub mod Probed
pub mod Startup
pub mod Hook
pub mod Builds
pub mod Pushed
mod Examples
use mathlib.Core.Option
use builder.Base.{ℕ, Bytes, codes, Bool, List, [], ◌∷◌, ◌++◌, Option, some, none, Result, ok, err}
use builder.Base.Int.{ℤ, pos, negsuc}
use builder.Text.Decimal.{print_int}
use builder.K8s.Client.{Attempt, returned, panicked}
use builder.Maps.{Map}
use builder.Conf.{get_storage_params}
use builder.Sshd.Circuit.{Circuit}
use builder.Sshd.Circuit.Shared.{Circuits, new_circuit_in}
use builder.Sshd.Config as SshConfig
use builder.Sshd.Config.{git_lock_timeout, cleaner_poll_sleep_duration}
use builder.Sshd.Lock.{InMemoryRepoLock, new_in_memory_repository_lock}
use builder.Sshd.Listener.{ServerConfig, Accepts, ServerEffect, configure, serve}
use builder.Gitreceive.Config.{Config, check_durations}
use builder.Gitreceive.Run.{HookError, run_hook}
use builder.Gitreceive.Build.{Outcome, done, failed, call_failed, Action, Run, build}
use builder.Gitreceive.Calls.{Calls}

abbrev pub git_home_dir : Bytes
git_home_dir = codes "/workspace"

abbrev pub status_ok : ℕ
status_ok = 0

abbrev pub status_local_error : ℕ
status_local_error = 1

pub address : SshConfig.Config → Bytes
address cnf = cnf.ssh_host_ip ++ (codes ":" ++ print_int cnf.ssh_host_port)

-- `RunBuilder`, where `net_listen` is `net.Listen` on an address: the circuit it leaves, what it does, and
-- its status.
unfoldable pub run_builder :
    {K P F C E : Type 0}
    → (Bytes → Result E Bytes)
    → (Bytes → Result E K)
    → (Bytes → Result E (Accepts C E))
    → (P → Result F (Map Bytes))
    → SshConfig.Config
    → Bytes
    → Circuit
    → Circuit × List (ServerEffect C) × ℕ
unfolding address
run_builder {K = K} {P = P} {F = F} {E = E} read_file parse_private_key net_listen auth_key cnf home
      circuit =
    elim (configure {K = K} {P = P} {F = F} {E = E} read_file parse_private_key auth_key) [
      | err e ↦ (circuit, [], status_local_error)
      | ok cfg ↦
          let (circuit', effects, failure) =
            serve circuit home (net_listen (address cnf)) (codes "gitreceive") in
          (circuit', effects, elim failure [ some e ↦ status_local_error | none ↦ status_ok ])
    ]

-- The goroutines of the server, with what they are given; a circuit is given by its pointer.
pub data Goroutine (D Q : Type 0) : Type 0 where
  -- healthsrv.Start
  health_server : SshConfig.Config → Q → D → (circuit : ℕ) → Goroutine D Q
  -- cleaner.Run
  cleaner : (git_home : Bytes) → Q → (poll_sleep_duration : ℤ) → D → Goroutine D Q
  -- pkg.RunBuilder
  ssh_server :
      SshConfig.Config → (git_home : Bytes) → (circuit : ℕ) → InMemoryRepoLock → Goroutine D Q

-- What `select` receives. A health server or a cleaner that returns nil sends nothing.
pub data Received (E : Type 0) : Type 0 where
  from_health_srv_ch : E → Received E
  from_ssh_ch : (code : ℕ) → Received E
  from_cleaner_err_ch : E → Received E

pub data CommandError (E : Type 0) : Type 0 where
  config_failed : E → CommandError E
  driver_failed : E → CommandError E
  cluster_failed : E → CommandError E
  cluster_panicked : E → CommandError E
  health_server_failed : E → CommandError E
  -- "unexpected SSH server stop with code %d"
  ssh_server_stopped : (code : ℕ) → CommandError E
  cleaner_failed : E → CommandError E

pub select_error : {E : Type 0} → Received E → CommandError E
select_error (from_health_srv_ch e) = health_server_failed e
select_error (from_ssh_ch i) = ssh_server_stopped i
select_error (from_cleaner_err_ch e) = cleaner_failed e

module _ {D E Q : Type 0} (hostname : Bytes → Option Bytes) (is_ip : Bytes → Bool)
    (env : Bytes → Bytes) (create : Map Bytes → Result E D) where
  -- The action of "server", where `process` is what `envconfig.Process` gives, `cluster` what
  -- `k8s.NewInCluster` does, and `first` what comes first, `none` while nothing has come: the goroutines it
  -- starts, the circuits it has made, and the error it returns, `none` for no return.
  unfoldable pub server_action :
      Result E SshConfig.Config
      → Attempt E Q
      → Option (Received E)
      → List (Goroutine D Q) × Circuits × Option (CommandError E)
  unfolding select_error
  server_action (err e) cluster first = ([], [], some (config_failed e))
  server_action (ok cnf) cluster first =
      let push_lock = new_in_memory_repository_lock (git_lock_timeout cnf) in
      let (circuits, circ) = new_circuit_in [] in
      elim (create (get_storage_params hostname is_ip env)) [
        | err e ↦ ([], circuits, some (driver_failed e))
        | ok driver ↦ elim cluster [
          | panicked e ↦ ([], circuits, some (cluster_panicked e))
          | returned (err e) ↦ ([], circuits, some (cluster_failed e))
          | returned (ok kube_client) ↦ (
            health_server cnf kube_client driver circ
                ∷ cleaner git_home_dir kube_client (cleaner_poll_sleep_duration cnf) driver
                ∷ ssh_server cnf git_home_dir circ push_lock
                ∷ [],
            circuits,
            Option.map select_error first,
          )
        ]
      ]

-- What the action of "git-receive" returns.
pub data ReceiveError (E F : Type 0) : Type 0 where
  receive_config_failed : E → ReceiveError E F
  receive_driver_failed : E → ReceiveError E F
  hook_failed : HookError E F → ReceiveError E F

-- A build that does not succeed ends the hook: with its error, or in a panic.
pub outcome_error : {E : Type 0} → Outcome E → Option (Outcome E)
outcome_error done = none
outcome_error other = some other

-- The call of `build` in the hook, after the actions so far. What the calls of other programs give may
-- depend on the revision and on these actions.
pub build_from :
    {D Q E : Type 0}
    → (D → Q → Bytes → List Action → Calls E)
    → D
    → Config
    → Q
    → Bytes
    → List Action
    → List Action × Option (Outcome E)
unfolding outcome_error
build_from calls driver conf kube_client new_rev before =
    let r = build (calls driver kube_client new_rev before) conf new_rev in
    (before ++ r.0, outcome_error r.1)

module _ {D Q E : Type 0} (hostname : Bytes → Option Bytes) (is_ip : Bytes → Bool)
    (env : Bytes → Bytes) (create : Map Bytes → Result E D)
    (calls : D → Q → Bytes → List Action → Calls E) where
  -- The action of "git-receive", on the lines of standard input.
  unfoldable pub git_receive_action :
      Result E Config
      → Attempt E Q
      → List Bytes
      → Option E
      → List Action × Option (ReceiveError E (Outcome E))
  unfolding build_from
  git_receive_action (err e) cluster lines scan_error = ([], some (receive_config_failed e))
  git_receive_action (ok cnf) cluster lines scan_error =
      elim (create (get_storage_params hostname is_ip env)) [
        | err e ↦ ([], some (receive_driver_failed e))
        | ok driver ↦
            let conf = check_durations cnf in
            let (actions, failure) =
              run_hook conf cluster (build_from calls driver conf) lines
                (Option.map (λ e. failed (call_failed e)) scan_error) [] in
            (actions, Option.map hook_failed failure)
      ]
