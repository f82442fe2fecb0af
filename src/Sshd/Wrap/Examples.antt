-- ===== src/Sshd/Wrap/Examples.antt =====
-- Concrete runs of `wrapInLock`.
use builder.Base.Int.{pos}
use builder.Base.{arith, false, ℕ, Bytes, codes, ◌≡◌, ◌↔◌, true, refl}
use builder.Sshd.Lock.{lock, unlock}
use builder.Sshd.Lock.Held.{held}
use builder.Sshd.Wrap.{
  System, Reach, update, init, start, later, pick, acquire, timeout, finish, selecting,
  closing_done, working, offering,
}
use builder.Sshd.Wrap.Invariant.{holding}
use builder.Sshd.Wrap.Safety.{
  CanEnd, Steps, BothWorking, mutual_exclusion, held_iff_holding, goroutine-CanEnd,
  timeout_lets_two_work,
}

abbrev one_repo : ℕ → Bytes
one_repo i = codes "app"

-- The call 0 waits for its `fn`.
abbrev waiting : System ℕ
waiting = record {
  rl = (lock (init ℕ (pos 10)).rl (codes "app")).0;
  pushes =
      update (init ℕ (pos 10)).pushes 0
        (record { caller = selecting; worker = working; done_closed = false });
}

waiting-Reach : Reach one_repo (pos 10) waiting
unfolding lock builder.Maps.lookup builder.Sshd.Lock.new_in_memory_repository_lock
waiting-Reach = later start (pick 0 (acquire refl refl))

-- It has timed out, and then `fn` has returned.
abbrev timed_out : System ℕ
timed_out = record {
  rl = waiting.rl;
  pushes =
      update waiting.pushes 0
        (record { caller = closing_done; worker = working; done_closed = false });
}

abbrev offered : System ℕ
offered = record {
  rl = waiting.rl;
  pushes =
      update timed_out.pushes 0
        (record { caller = closing_done; worker = offering 7; done_closed = false });
}

offered-Reach : Reach one_repo (pos 10) offered
offered-Reach = later (later waiting-Reach (pick 0 (timeout refl))) (pick 0 (finish 7 refl))

mutual_exclusion_example : ◌≡◌ {A = ℕ} 0 0
mutual_exclusion_example = mutual_exclusion waiting-Reach 0 0 refl refl refl

held_iff_holding_example :
    (held waiting.rl (codes "app") ≡ true)
    ↔ ((i : ℕ) × (holding (waiting.pushes i).caller ≡ true) × (one_repo i ≡ codes "app"))
held_iff_holding_example = held_iff_holding waiting-Reach (codes "app")

goroutine-CanEnd_example : CanEnd one_repo offered 0
goroutine-CanEnd_example = goroutine-CanEnd offered-Reach 0 7 refl

timeout_lets_two_work_example : (t : System ℕ) × Steps one_repo waiting t × BothWorking t 0 1
timeout_lets_two_work_example =
    timeout_lets_two_work waiting-Reach 0 1 (omega arith) refl refl refl refl
