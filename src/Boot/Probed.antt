-- ===== src/Boot/Probed.antt =====
-- The health probe of a server that shares its circuit: `Start` of pkg/healthsrv gets the circuit that
-- `RunBuilder` closes.
use builder.Base.{ℕ, ap, Bytes, List, some, Result, ◌≡◌, ◌↔◌, refl, arith, inl, inr, true}
use builder.Maps.{Map}
use builder.Sshd.Circuit.{Circuit, new_circuit, state}
use builder.Sshd.Config as SshConfig
use builder.Sshd.Listener.{Accepts, ServerEffect}
use builder.Healthsrv.Checks.{list_buckets}
use builder.Healthsrv.Handlers.{Source, health_z_handler}
use builder.Healthsrv.Handlers as Handlers
use builder.Healthsrv.Handlers.Status.{arrives, is_first, is_second, health_z_handler_lem}
use builder.Boot.{run_builder}
use builder.Boot.Listening.{CanListen, run_builder_lem}

module _ {K P F C E B : Type 0} (read_file : Bytes → Result E Bytes)
    (parse_private_key : Bytes → Result E K) (net_listen : Bytes → Result E (Accepts C E))
    (auth_key : P → Result F (Map Bytes)) (cnf : SshConfig.Config) (home : Bytes)
    (buckets : Result B (List Bytes)) (sources : List Source) where
  abbrev pub started : Circuit
  started =
      (run_builder {K = K} read_file parse_private_key net_listen auth_key cnf home new_circuit).0

  -- The buckets could be listed, and both checks are received from before the timer.
  abbrev pub HasAnswered : Type 0
  HasAnswered =
      (list_buckets buckets ≡ true)
      × (arrives is_first sources ≡ true)
      × (arrives is_second sources ≡ true)

  started-state :
      (r : Circuit × List (ServerEffect C) × ℕ)
      → run_builder {K = K} read_file parse_private_key net_listen auth_key cnf home new_circuit ≡ r
      → state started ≡ state r.0
  started-state r e = ap (λ (x : Circuit × List (ServerEffect C) × ℕ). state x.0) e

  -- Before the SSH server is started, the health probe does not answer 200. With the circuit as the server
  -- leaves it, it does exactly when the server could read both host keys and listen on its address, the
  -- buckets could be listed, and both checks are received from before the timer.
  pub health_z_handler-CanListen :
      (¬ (health_z_handler buckets new_circuit sources ≡ some Handlers.status_ok))
      × ((health_z_handler buckets started sources ≡ some Handlers.status_ok)
          ↔ (CanListen read_file parse_private_key net_listen auth_key cnf home × HasAnswered))
  unfolding state new_circuit
  health_z_handler-CanListen =
      let before = health_z_handler_lem buckets new_circuit sources in
      let after = health_z_handler_lem buckets started sources in
      (
        λ h. ground (arith, (before.0 h).0),
        elim (run_builder_lem read_file parse_private_key net_listen auth_key cnf home new_circuit
            refl) [
              | inl (accepts, ran, l, can) ↦ (
                λ h.
                    let (closed, listed, first, second) = after.0 h in
                    (can, (listed, first, second)),
                λ h.
                    let (listed, first, second) = h.1 in
                    after.1 (started-state _ ran, listed, first, second),
              )
              | inr (ran, cannot) ↦ (
                λ h. absurd (ground (arith, started-state _ ran, (after.0 h).0)),
                λ h. absurd (cannot h.0),
              )
            ],
      )
