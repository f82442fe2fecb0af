-- ===== src/Boot/Listening.antt =====
-- When the SSH server listens, and what it leaves of its circuit.
use builder.Base.{
  ℕ, Bytes, codes, List, [], ◌∷◌, ◌++◌, map, Result, ok, ◌≡◌, arith, Result-cases, inl, inr, ◌⊎◌,
}
use builder.Maps.{Map}
use builder.Sshd.Circuit.{Circuit, open_state, closed_state, state, close}
use builder.Sshd.Config as SshConfig
use builder.Sshd.Listener.{
  Accepts, ServerEffect, circuit_closed, handling, listener_closed, serve, listen,
}
use builder.Sshd.Listener.Started.{host_key, configure_ok, no_rsa, no_ecdsa}
use builder.Boot.{address, status_ok, status_local_error, run_builder}

module _ {K P F C E : Type 0} (read_file : Bytes → Result E Bytes)
    (parse_private_key : Bytes → Result E K) (net_listen : Bytes → Result E (Accepts C E))
    (auth_key : P → Result F (Map Bytes)) (cnf : SshConfig.Config) (home : Bytes) where
  abbrev ran : Circuit → Circuit × List (ServerEffect C) × ℕ
  ran circuit = run_builder {K = K} read_file parse_private_key net_listen auth_key cnf home circuit

  -- Both host keys are there, and the address can be listened on.
  abbrev pub CanListen : Type 0
  CanListen =
      ((rsa : K) × (host_key read_file parse_private_key (codes "rsa") ≡ ok rsa))
      × ((ecdsa : K) × (host_key read_file parse_private_key (codes "ecdsa") ≡ ok ecdsa))
      × ((accepts : Accepts C E) × (net_listen (address cnf) ≡ ok accepts))

  -- What a server that listens does.
  abbrev pub served : Accepts C E → List (ServerEffect C)
  served accepts =
      circuit_closed
      ∷ (map (handling (record { git_home = home; receivetype = codes "gitreceive" })) accepts.conns
          ++ listener_closed ∷ [])

  -- From an open circuit, and where both host keys can be read and the address can be listened on, the
  -- server closes the circuit, then handles each connection that is accepted, and ends with status 0.
  -- Otherwise its status is 1, nothing is done, and the circuit stays open.
  pub run_builder_lem :
      (circuit : Circuit)
      → state circuit ≡ open_state
      → (((accepts : Accepts C E) × (ran circuit
            ≡ (record { bit = closed_state }, served accepts, status_ok))
          × (net_listen (address cnf) ≡ ok accepts)
          × CanListen))
        ⊎ ((ran circuit ≡ (circuit, [], status_local_error)) × (CanListen → ⊥))
  unfolding run_builder serve listen state close
  run_builder_lem circuit h =
      elim (Result-cases (host_key read_file parse_private_key (codes "rsa"))) [
        | inl (e, bad) ↦
            inr (rw (run_builder, no_rsa read_file parse_private_key auth_key e bad), ground arith)
        | inr (rsa, r) ↦
            elim (Result-cases (host_key read_file parse_private_key (codes "ecdsa"))) [
              | inl (e, bad) ↦ inr (
                rw (run_builder, no_ecdsa read_file parse_private_key auth_key rsa e r bad),
                ground arith,
              )
              | inr (ecdsa, s) ↦ elim (Result-cases (net_listen (address cnf))) [
                | inl (e, bad) ↦ inr (
                  rw (run_builder, configure_ok read_file parse_private_key auth_key rsa ecdsa r s)
                      (rw (bad, serve)),
                  ground arith,
                )
                | inr (accepts, l) ↦ inl (
                  accepts,
                  rw (run_builder, configure_ok read_file parse_private_key auth_key rsa ecdsa r s)
                      (rw (l, serve) (ground arith)),
                  l,
                  ((rsa, r), (ecdsa, s), (accepts, l)),
                )
              ]
            ]
      ]
