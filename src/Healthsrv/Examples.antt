-- ===== src/Healthsrv/Examples.antt =====
-- Concrete probes.
use builder.Base.{ℕ, ◌≡◌, some, true, Bool}
use builder.Base.{false, refl}
use builder.Healthsrv.Goroutines.{
  Probe, Reach, init, start, later, call, receive, finish, sending, received, set_check,
}
use builder.Healthsrv.Goroutines.Answered.{status_ok-both}
use builder.Healthsrv.Handlers.{status_ok}

abbrev fine : ℕ → Bool
fine i = true

-- Both calls return, both are received from, and the loop is over.
abbrev called : Probe
called = record init {
  checks = set_check (set_check init.checks 0 (sending true)) 1 (sending true);
}

called-Reach : Reach fine called
called-Reach = later (later start (call 0 refl)) (call 1 refl)

abbrev answered : Probe
answered = record {
  checks = set_check (set_check called.checks 1 received) 0 received;
  waiting = 0;
  status = some status_ok;
  stop_closed = false;
}

answered-Reach : Reach fine answered
answered-Reach =
    later (later (later called-Reach (receive 1 refl refl refl)) (receive 0 refl refl refl))
      (finish refl refl)

status_ok-both_example :
    (fine 0 ≡ true)
    × (fine 1 ≡ true)
    × (answered.checks 0 ≡ received)
    × (answered.checks 1 ≡ received)
status_ok-both_example = status_ok-both answered-Reach refl
