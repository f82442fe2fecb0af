-- ===== src/Boot/Examples.antt =====
-- Concrete environments, host keys and listeners.
use builder.Base.{
  ℕ, Bytes, codes, Bool, false, List, [], ◌∷◌, Option, some, none, Result, ok, err, ◌≡◌, ◌≢◌, ◌⊎◌,
  ◌↔◌, refl,
}
use builder.Base.Int.{pos}
use builder.Maps.{Map}
use builder.K8s.Client.{returned, new_in_cluster}
use builder.Sshd.Circuit.{Circuit, new_circuit, closed_state}
use builder.Sshd.Config as SshConfig
use builder.Sshd.Listener.{Accepts}
use builder.Gitreceive.Build.{Action}
use builder.Gitreceive.Calls.{Calls}
use builder.Gitreceive.Samples.{conf, build_calls}
use builder.Boot.{
  address, status_ok, status_local_error, run_builder, Received, from_ssh_ch, CommandError,
  cluster_failed, server_action,
}
use builder.Boot.Listening.{CanListen, served, run_builder_lem}
use builder.Boot.Probed.{HasAnswered, health_z_handler-CanListen}
use builder.Healthsrv.Handlers.{Source, first_check, second_check, timer, health_z_handler}
use builder.Boot.Startup.{HasStarted, server_action_lem}
use builder.Boot.Builds.Hooked.{DidNothing, HasPushed, git_receive_action-HasBuilds}

abbrev config : SshConfig.Config
config = record {
  controller_url = codes "http://drycc-controller-api:80";
  ssh_host_ip = codes "0.0.0.0";
  ssh_host_port = pos 2223;
  health_srv_port = pos 8092;
  health_srv_test_storage_region = codes "us-east-1";
  cleaner_poll_sleep_duration_sec = pos 5;
  imagebuilder_image_pull_policy = codes "Always";
  lock_timeout = pos 10;
}

abbrev read_file : Bytes → Result ℕ Bytes
read_file path = ok path

abbrev parse_key : Bytes → Result ℕ ℕ
parse_key text = ok 7

-- Two connections, and then an error.
abbrev net_listen : Bytes → Result ℕ (Accepts ℕ ℕ)
net_listen address = ok (record { conns = 1 ∷ 2 ∷ []; failure = 3 })

abbrev auth_key : ℕ → Result ℕ (Map Bytes)
auth_key key = err 4

abbrev circuit : Circuit
circuit = record { bit = 0 }

run_builder_lem_example :
    ((accepts : Accepts ℕ ℕ) × (run_builder {K = ℕ} read_file parse_key net_listen auth_key config
          (codes "/workspace")
          circuit
        ≡ (
          record { bit = closed_state },
          served read_file parse_key net_listen auth_key config (codes "/workspace") accepts,
          status_ok,
        ))
      × (net_listen (address config) ≡ ok accepts)
      × CanListen read_file parse_key net_listen auth_key config (codes "/workspace"))
    ⊎ ((run_builder {K = ℕ} read_file parse_key net_listen auth_key config
            (codes "/workspace")
            circuit
          ≡ (circuit, [], status_local_error))
        × (CanListen read_file parse_key net_listen auth_key config (codes "/workspace") → ⊥))
unfolding builder.Sshd.Circuit.state
run_builder_lem_example =
    run_builder_lem read_file parse_key net_listen auth_key config (codes "/workspace") circuit refl

abbrev buckets : Result ℕ (List Bytes)
buckets = ok (codes "git" ∷ [])

abbrev in_turn : List Source
in_turn = second_check ∷ first_check ∷ timer ∷ []

health_z_handler-CanListen_example :
    (¬ (health_z_handler buckets new_circuit in_turn ≡ some builder.Healthsrv.Handlers.status_ok))
    × ((health_z_handler buckets
            (run_builder {K = ℕ} read_file parse_key net_listen auth_key config
              (codes "/workspace")
              new_circuit).0
            in_turn
          ≡ some builder.Healthsrv.Handlers.status_ok)
        ↔ (CanListen read_file parse_key net_listen auth_key config (codes "/workspace")
            × HasAnswered read_file parse_key net_listen auth_key config
                (codes "/workspace")
                buckets
                in_turn))
health_z_handler-CanListen_example =
    health_z_handler-CanListen read_file parse_key net_listen auth_key config (codes "/workspace")
      buckets in_turn

abbrev hostname : Bytes → Option Bytes
hostname url = none

abbrev is_ip : Bytes → Bool
is_ip host = false

abbrev getenv : Bytes → Bytes
getenv name = name

abbrev create : Map Bytes → Result ℕ ℕ
create params = ok 5

abbrev new_for_config : ℕ → Result ℕ ℕ
new_for_config g = ok 6

abbrev stopped : Option (Received ℕ)
stopped = some (from_ssh_ch 0)

server_action_lem_example :
    (HasStarted hostname is_ip getenv create (ok 1) new_for_config stopped (ok config)
      ⊎ (((server_action hostname is_ip getenv create
              (ok config)
              (new_in_cluster (ok 1) new_for_config)
              stopped).0
            ≡ [])
          × ((e : CommandError ℕ) × ((server_action hostname is_ip getenv create
                  (ok config)
                  (new_in_cluster (ok 1) new_for_config)
                  stopped).2
                ≡ some e))))
    × ((f : ℕ)
        → (server_action hostname is_ip getenv create
            (ok config)
            (new_in_cluster (ok 1) new_for_config)
            stopped).2
          ≢ some (cluster_failed f))
server_action_lem_example =
    server_action_lem hostname is_ip getenv create (ok 1) new_for_config stopped (ok config)

abbrev calls : ℕ → ℕ → Bytes → List Action → Calls ℕ
calls driver client rev before = build_calls

abbrev pushed_lines : List Bytes
pushed_lines =
    codes "000 0123456789abcdef0123456789abcdef01234567 refs/heads/main" ∷ codes "malformed" ∷ []

git_receive_action-HasBuilds_example :
    DidNothing hostname is_ip getenv create calls conf (returned (ok 6)) pushed_lines none
    ⊎ HasPushed hostname is_ip getenv create calls conf (returned (ok 6)) pushed_lines none
git_receive_action-HasBuilds_example =
    git_receive_action-HasBuilds hostname is_ip getenv create calls conf (returned (ok 6))
      pushed_lines none
