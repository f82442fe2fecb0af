-- ===== src/Boot/Startup.antt =====
-- What the server command starts.
use mathlib.Core.Option
use builder.Base.{
  ℕ, none, Bool, Bytes, List, [], ◌∷◌, Option, some, Result, ok, err, ◌≡◌, ◌≢◌, ◌⊎◌, inl, inr, refl,
  Result-cases,
}
use builder.Maps.{Map}
use builder.Conf.{get_storage_params}
use builder.K8s.Client.{returned, panicked, new_in_cluster}
use builder.Sshd.Circuit.{Circuit, new_circuit}
use builder.Sshd.Circuit.Shared.{Circuits, new_circuit_in, load_circuit, store_circuit}
use builder.Sshd.Config as SshConfig
use builder.Sshd.Config.{git_lock_timeout, cleaner_poll_sleep_duration}
use builder.Sshd.Lock.{new_in_memory_repository_lock}
use builder.Boot.{
  git_home_dir, Goroutine, health_server, cleaner, ssh_server, Received, from_health_srv_ch,
  from_ssh_ch, from_cleaner_err_ch, select_error, CommandError, config_failed, driver_failed,
  cluster_failed, cluster_panicked, server_action,
}

-- The client library has no other way to fail than a panic.
new_in_cluster-cases :
    {E G C : Type 0} (config : Result E G) (new_for_config : G → Result E C)
    → ((e : E) × (new_in_cluster config new_for_config ≡ panicked e))
      ⊎ ((client : C) × (new_in_cluster config new_for_config ≡ returned (ok client)))
unfolding new_in_cluster
new_in_cluster-cases (err e) new_for_config = inl (e, refl)
new_in_cluster-cases (ok config) new_for_config = elim (Result-cases (new_for_config config)) [
  | inl (e, bad) ↦ inl (e, rw (bad, new_in_cluster))
  | inr (client, good) ↦ inr (client, rw (good, new_in_cluster))
]

-- No goroutine sends the error for the client.
select_error-cluster_failed :
    {E : Type 0} (f : E) (first : Option (Received E))
    → Option.map select_error first ≢ some (cluster_failed f)
unfolding select_error
select_error-cluster_failed f none h = cc
select_error-cluster_failed f (some (from_health_srv_ch e)) h = cc
select_error-cluster_failed f (some (from_ssh_ch i)) h = cc
select_error-cluster_failed f (some (from_cleaner_err_ch e)) h = cc

module _ {D E G Q : Type 0} (hostname : Bytes → Option Bytes) (is_ip : Bytes → Bool)
    (env : Bytes → Bytes) (create : Map Bytes → Result E D) (in_cluster_config : Result E G)
    (new_for_config : G → Result E Q) (first : Option (Received E)) where
  abbrev started :
      Result E SshConfig.Config → List (Goroutine D Q) × Circuits × Option (CommandError E)
  started process =
      server_action hostname is_ip env create process
        (new_in_cluster in_cluster_config new_for_config) first

  -- The three goroutines, where the pointers to a circuit are those two.
  abbrev pub goroutines : SshConfig.Config → D → Q → ℕ → ℕ → List (Goroutine D Q)
  goroutines cnf driver client health ssh =
      health_server cnf client driver health
      ∷ cleaner git_home_dir client (cleaner_poll_sleep_duration cnf) driver
      ∷ ssh_server cnf git_home_dir ssh (new_in_memory_repository_lock (git_lock_timeout cnf))
      ∷ []

  -- The pointer `ssh` is to a new circuit, and whatever is made of this circuit is what is seen through
  -- the pointer `health`.
  abbrev pub IsShared : ℕ → ℕ → Circuits → Type 0
  IsShared health ssh circuits =
      (load_circuit ssh circuits ≡ some new_circuit)
      × ((c : Circuit) → load_circuit health (store_circuit ssh c circuits) ≡ some c)

  -- All three goroutines are started, and the command returns when one of them has sent.
  abbrev pub HasStarted : Result E SshConfig.Config → Type 0
  HasStarted process =
      (cnf : SshConfig.Config) × (driver : D) × (client : Q) × (process ≡ ok cnf)
      × (create (get_storage_params hostname is_ip env) ≡ ok driver)
      × (new_in_cluster in_cluster_config new_for_config ≡ returned (ok client))
      × ((health : ℕ) × (ssh : ℕ) × ((started process).0 ≡ goroutines cnf driver client health ssh)
          × IsShared health ssh (started process).1)
      × ((started process).2 ≡ Option.map select_error first)

  -- The server command either has its configuration, a driver of the store and a client of the cluster,
  -- and starts all three goroutines, with one directory of repositories, one driver and one client, and
  -- returns when the first of them has sent; or it starts none of them and ends with an error. What the
  -- SSH server makes of its circuit, which is open at first, is what the health server sees. Whatever
  -- happens, the command does not return the error that it has for a client that cannot be made: the
  -- constructor of the client panics instead.
  pub server_action_lem :
      (process : Result E SshConfig.Config)
      → (HasStarted process
          ⊎ (((started process).0 ≡ []) × ((e : CommandError E) × ((started process).2 ≡ some e))))
        × ((f : E) → (started process).2 ≢ some (cluster_failed f))
  unfolding server_action new_circuit_in load_circuit store_circuit new_circuit
  server_action_lem (err e) = (inr (refl, (config_failed e, refl)), λ f h. cc)
  server_action_lem (ok cnf) =
      elim (Result-cases (create (get_storage_params hostname is_ip env))) [
        | inl (e, bad) ↦ (
          inr (rw (bad, server_action), (driver_failed e, rw (bad, server_action))),
          λ f. rw (bad, server_action) (λ h. cc),
        )
        | inr (driver, good) ↦ elim (new_in_cluster-cases in_cluster_config new_for_config) [
          | inl (e, panic) ↦ (
            inr (
              rw (good, panic, server_action),
              (cluster_panicked e, rw (good, panic, server_action)),
            ),
            λ f. rw (good, panic, server_action) (λ h. cc),
          )
          | inr (client, up) ↦ (
            inl (
              cnf,
              driver,
              client,
              refl,
              good,
              up,
              (
                0,
                0,
                rw (good, up, server_action),
                (rw (good, up, server_action), λ c. rw (good, up, server_action)),
              ),
              rw (good, up, server_action),
            ),
            λ f. rw (good, up, server_action) (select_error-cluster_failed f first),
          )
        ]
      ]
