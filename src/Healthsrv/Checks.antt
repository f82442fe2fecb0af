-- ===== src/Healthsrv/Checks.antt =====
-- The checks that a probe starts as goroutines: circuit_state.go, buckets_lister.go, namespace_lister.go
-- and controller_state.go. A check sends on one of its two channels, once: its outcome says on which.
use builder.Base.{
  is_none, if◌then◌else◌, ◌==◌, err, ok, Result, Bytes, List, Option, not, false, true, Bool,
}
use builder.Sshd.Circuit.{Circuit, closed_state, state}
use builder.Controller.{check_api_compat}

-- `true` is a send on `succCh`, and `false` one on `errCh`.
unfoldable pub circuit_state : Circuit → Bool
circuit_state circ = if not (state circ == closed_state) then false else true

-- `buckets` is what `bl.List` gives.
unfoldable pub list_buckets : {E : Type 0} → Result E (List Bytes) → Bool
list_buckets (err e) = false
list_buckets (ok buckets) = true

-- `ns_list` is what `nl.List` gives.
unfoldable pub list_namespaces : {E N : Type 0} → Result E N → Bool
list_namespaces (err e) = false
list_namespaces (ok ns_list) = true

-- `health` is what `client.Healthcheck` gives.
unfoldable pub controller_state : {E : Type 0} → (E → Bool) → Option E → Bool
unfolding check_api_compat
controller_state is_api_mismatch health = is_none (check_api_compat is_api_mismatch health)
