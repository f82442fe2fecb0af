-- ===== src/Healthsrv/Goroutines.antt =====
-- The goroutines of a probe: healthz_handler.go and readiness_handler.go with circuit_state.go,
-- buckets_lister.go, namespace_lister.go and controller_state.go. Each of the two checks sends on one of
-- its channels, unless the handler has closed `stopCh`; a step is one exchange on a channel, one return of
-- a call, or one statement of the handler.
pub mod Answered
use builder.Base.{
  ℕ, zero, suc, Bool, true, false, Option, none, some, ◌≡◌, ◌==◌, ltb, if◌then◌else◌,
}
use builder.Healthsrv.Handlers.{status_ok, status_service_unavailable}

-- Where a check stands. `sending` is after its call has returned; `true` is on `succCh`.
pub data Checker : Type 0 where
  absent calling : Checker
  sending : Bool → Checker
  received stopped : Checker

-- A probe: its checks, how many are still to be received from, the status that is written, and whether
-- `stopCh` is closed.
pub record Probe : Type 0 where
  pub checks : ℕ → Checker
  pub waiting : ℕ
  pub status : Option ℕ
  pub stop_closed : Bool

abbrev pub set_check : (ℕ → Checker) → ℕ → Checker → ℕ → Checker
set_check checks i c j = if i == j then c else checks j

-- `outcome i` is what the call of check `i` finds.
pub data Step (outcome : ℕ → Bool) (p : Probe) : Probe → Type 0 where
  -- the call of a check returns
  call :
      (i : ℕ)
      → p.checks i ≡ calling
      → Step outcome p (record p { checks = set_check p.checks i (sending (outcome i)) })
  -- the handler receives from `succCh`
  receive :
      (i : ℕ) {n : ℕ}
      → p.checks i ≡ sending true
      → p.status ≡ none
      → p.waiting ≡ suc n
      → Step outcome p (record p { checks = set_check p.checks i received; waiting = n })
  -- it receives from `errCh`
  receive_error :
      (i : ℕ) {n : ℕ}
      → p.checks i ≡ sending false
      → p.status ≡ none
      → p.waiting ≡ suc n
      → Step outcome p (record p {
        checks = set_check p.checks i received;
        status = some status_service_unavailable;
      })
  -- it receives from `timeoutCh`
  time_out :
      {n : ℕ}
      → p.status ≡ none
      → p.waiting ≡ suc n
      → Step outcome p (record p { status = some status_service_unavailable })
  -- the loop is over
  finish :
      p.status ≡ none → p.waiting ≡ zero → Step outcome p (record p { status = some status_ok })
  -- the deferred `close(stopCh)`
  close_stop : {s : ℕ} → p.status ≡ some s → Step outcome p (record p { stop_closed = true })
  -- a check's `case <-stopCh`
  stop :
      (i : ℕ) {b : Bool}
      → p.checks i ≡ sending b
      → p.stop_closed ≡ true
      → Step outcome p (record p { checks = set_check p.checks i stopped })

-- Two checks have been started.
abbrev pub init : Probe
init = record {
  checks = λ i. if ltb i 2 then calling else absent;
  waiting = 2;
  status = none;
  stop_closed = false;
}

pub data Reach (outcome : ℕ → Bool) : Probe → Type 0 where
  start : Reach outcome init
  later : {p q : Probe} → Reach outcome p → Step outcome p q → Reach outcome q
