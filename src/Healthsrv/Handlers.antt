-- ===== src/Healthsrv/Handlers.antt =====
-- healthz_handler.go and readiness_handler.go: each handler starts two checks and a timer, and receives
-- from whichever is ready first. A schedule says in which order they are received from; that of a check
-- that has already been received from is skipped, since a check sends once.
pub mod Status
use builder.Base.{Result, Bytes, ◌∷◌, [], List, some, none, Option, false, true, Bool, suc, zero, ℕ}
use builder.Sshd.Circuit.{Circuit}
use builder.Healthsrv.Checks.{circuit_state, list_buckets, list_namespaces, controller_state}

pub data Source : Type 0 where
  first_check second_check timer : Source

abbrev pub status_ok : ℕ
status_ok = 200

abbrev pub status_service_unavailable : ℕ
status_service_unavailable = 503

-- A check, until it is received from: its outcome.
abbrev pub Check : Type 0
Check = Option Bool

-- The loop of a handler, with the checks that are still to be received from and the schedule: the status
-- that is written, or `none` while the handler waits.
unfoldable pub collect : ℕ → Check → Check → List Source → Option ℕ
collect zero a b sources = some status_ok
collect (suc checks) a b [] = none
collect (suc checks) a b (timer ∷ sources) = some status_service_unavailable
collect (suc checks) none b (first_check ∷ sources) = collect (suc checks) none b sources
collect (suc checks) (some true) b (first_check ∷ sources) = collect checks none b sources
collect (suc checks) (some false) b (first_check ∷ sources) = some status_service_unavailable
collect (suc checks) a none (second_check ∷ sources) = collect (suc checks) a none sources
collect (suc checks) a (some true) (second_check ∷ sources) = collect checks a none sources
collect (suc checks) a (some false) (second_check ∷ sources) = some status_service_unavailable

unfoldable pub health_z_handler :
    {E : Type 0} → Result E (List Bytes) → Circuit → List Source → Option ℕ
unfolding collect
health_z_handler buckets server_circuit sources =
    collect 2 (some (circuit_state server_circuit)) (some (list_buckets buckets)) sources

unfoldable pub readiness_handler :
    {E N : Type 0} → (E → Bool) → Option E → Result E N → List Source → Option ℕ
unfolding collect
readiness_handler is_api_mismatch health ns_list sources =
    collect 2 (some (list_namespaces ns_list)) (some (controller_state is_api_mismatch health))
      sources
