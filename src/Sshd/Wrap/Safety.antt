-- ===== src/Sshd/Wrap/Safety.antt =====
-- What holds in every reachable state of the calls of `wrapInLock`.
use builder.Text.Equality.{eqb_iff}
use builder.Base.Int.{ℤ}
use builder.Base.{false, ◌≢◌, ◌↔◌, refl, arith}
use builder.Sshd.Lock.Held.{lock_free, unlock-held, held}
use builder.Sshd.Wrap.Invariant.{holding, IsCoherent, Reach-Inv}
use builder.Sshd.Wrap.{
  acquire, release, timeout, unlock, working, true, ◌≡◌, Bytes, ℕ, Caller, idle, selecting,
  closing_done, unlocking, returned, already_locked, exceeded_timeout, finished, offering, ended,
  receive, close_done, abandon, System, Step, pick, Reach,
}

module _ {R : Type 0} {repo : ℕ → Bytes} {limit : ℤ} {s : System R} (r : Reach repo limit s) where
  -- In every reachable state, two calls that are between a `Lock` that succeeded and their `Unlock`, and
  -- that are for the same repository, are one call.
  pub mutual_exclusion :
      (i j : ℕ)
      → holding (s.pushes i).caller ≡ true
      → holding (s.pushes j).caller ≡ true
      → repo i ≡ repo j
      → i ≡ j
  mutual_exclusion i j hi hj e = (Reach-Inv r).unique i j hi hj e

  -- In every reachable state no lock is left behind: a name that is held is the repository of a call that
  -- has yet to unlock it; and such a call's repository is held.
  pub held_iff_holding :
      (k : Bytes)
      → (held s.rl k ≡ true) ↔ ((i : ℕ) × (holding (s.pushes i).caller ≡ true) × (repo i ≡ k))
  held_iff_holding k = ((Reach-Inv r).owned k, λ h. rw (← h.2) ((Reach-Inv r).holds h.0 h.1))

-- Some steps, one after another.
pub data Steps {R : Type 0} (repo : ℕ → Bytes) (s : System R) : System R → Type 0 where
  none_taken : Steps repo s s
  then : {t u : System R} → Steps repo s t → Step repo t u → Steps repo s u

-- The goroutine of call `i` can end.
abbrev pub CanEnd : {R : Type 0} → (ℕ → Bytes) → System R → ℕ → Type 0
CanEnd {R} repo s i = (t : System R) × Steps repo s t × ((t.pushes i).worker ≡ ended)

module _ {R : Type 0} (repo : ℕ → Bytes) (s : System R) (i : ℕ) (x : R)
    (w : (s.pushes i).worker ≡ offering x) where
  give_up : (s.pushes i).done_closed ≡ true → CanEnd repo s i
  give_up d = (_, then none_taken (pick i (abandon x w d)), ground arith)

  coherent-CanEnd :
      (c : Caller R) → (s.pushes i).caller ≡ c → IsCoherent c (s.pushes i) → CanEnd repo s i
  coherent-CanEnd selecting e h = (_, then none_taken (pick i (receive x e w)), ground arith)
  coherent-CanEnd closing_done e h = (
    _,
    then (then none_taken (pick i (close_done e)))
        (pick i (abandon x (ground arith) (ground arith))),
    ground arith,
  )
  coherent-CanEnd (unlocking (exceeded_timeout n)) e h = give_up h
  coherent-CanEnd (returned (exceeded_timeout n)) e h = give_up h
  coherent-CanEnd idle e h = absurd (ground arith)
  coherent-CanEnd (unlocking already_locked) e h = absurd (ground arith)
  coherent-CanEnd (unlocking (finished y)) e h = absurd (ground arith)
  coherent-CanEnd (returned already_locked) e h = absurd (ground arith)
  coherent-CanEnd (returned (finished y)) e h = absurd (ground arith)

-- In every reachable state, a goroutine whose `fn` has returned can end: some
-- steps lead to a state in which it has ended, whether or not its call has timed out, so that it is
-- not left blocked on its channel.
pub goroutine-CanEnd :
    {R : Type 0} {repo : ℕ → Bytes} {limit : ℤ} {s : System R}
    → Reach repo limit s
    → (i : ℕ) (x : R) → (s.pushes i).worker ≡ offering x
    → CanEnd repo s i
goroutine-CanEnd {repo} {s} r i x w =
    coherent-CanEnd repo s i x w (s.pushes i).caller refl ((Reach-Inv r).coherent i)

abbrev pub BothWorking : {R : Type 0} → System R → ℕ → ℕ → Type 0
BothWorking s i j = ((s.pushes i).worker ≡ working) × ((s.pushes j).worker ≡ working)

-- The lock does not keep two runs of `fn` apart: in every reachable state where call `i` waits for its
-- `fn`, and call `j`, another one for the same repository, has not started, some steps (the timeout of
-- `i`, its deferred calls, and the start of `j`) lead to a state where the `fn` of both is running.
pub timeout_lets_two_work :
    {R : Type 0} {repo : ℕ → Bytes} {limit : ℤ} {s : System R}
    → Reach repo limit s
    → (i j : ℕ) → i ≢ j
    → repo i ≡ repo j
    → (s.pushes i).caller ≡ selecting
    → (s.pushes i).worker ≡ working
    → (s.pushes j).caller ≡ idle
    → (t : System R) × Steps repo s t × BothWorking t i j
timeout_lets_two_work {repo} {s} r i j ne same ci wi cj = (
  _,
  then
      (then (then (then none_taken (pick i (timeout ci))) (pick i (close_done (ground arith))))
        (pick i (release (exceeded_timeout (repo i)) (ground arith))))
      (pick j (acquire (ground arith) (lock_free (unlock s.rl (repo i)).0 (repo j) freed))),
  (ground arith, ground arith),
)
  where
    freed : held (unlock s.rl (repo i)).0 (repo j) ≡ false
    freed =
        ground (
          arith,
          unlock-held s.rl (repo i) (repo j) (Reach-Inv r).marked,
          eqb_iff (repo i) (repo j),
        )
