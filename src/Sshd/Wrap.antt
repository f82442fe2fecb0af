-- ===== src/Sshd/Wrap.antt =====
-- `wrapInLock` of pkg/sshd/lock.go: any number of calls on one `RepositoryLock`, interleaved with the
-- goroutine that each of them starts for `fn`, and with its timer. A step is one lock operation, one
-- exchange on a channel, or one deferred call.
pub mod Invariant
pub mod Safety
mod Examples
use builder.Base.Int.{ℤ}
use builder.Base.{ℕ, ◌≡◌, Bool, true, false, Bytes, Result, ok, err, ◌==◌, if◌then◌else◌}
use builder.Sshd.Lock.{InMemoryRepoLock, LockError, lock, unlock, new_in_memory_repository_lock}

-- What `wrapInLock` returns; `R` is what `fn` returns.
pub data Outcome (R : Type 0) : Type 0 where
  -- errAlreadyLocked
  already_locked : Outcome R
  -- fmt.Errorf("%s lock exceeded timeout", repoName)
  exceeded_timeout : (repo_name : Bytes) → Outcome R
  finished : R → Outcome R

-- Where the call stands. The deferred calls run last first: in the timer's case `close(doneCh)`, then
-- `lck.Unlock(repoName)`.
pub data Caller (R : Type 0) : Type 0 where
  idle : Caller R
  selecting : Caller R
  closing_done : Caller R
  unlocking : Outcome R → Caller R
  returned : Outcome R → Caller R

-- Where its goroutine stands.
pub data Worker (R : Type 0) : Type 0 where
  absent : Worker R
  working : Worker R
  offering : R → Worker R
  ended : Worker R

pub record Push (R : Type 0) : Type 0 where
  pub caller : Caller R
  pub worker : Worker R
  pub done_closed : Bool

module _ {R : Type 0} (repo_name : Bytes) (rl : InMemoryRepoLock) (p : Push R) where
  pub data Move : InMemoryRepoLock → Push R → Type 0 where
    -- `lck.Lock` fails
    refuse :
        {e : LockError}
        → p.caller ≡ idle
        → (lock rl repo_name).1 ≡ err e
        → Move (lock rl repo_name).0 (record p { caller = returned already_locked })
    -- `lck.Lock` succeeds: the timer starts, and the goroutine
    acquire :
        p.caller ≡ idle
        → (lock rl repo_name).1 ≡ ok tt
        → Move
            (lock rl repo_name).0
            (record { caller = selecting; worker = working; done_closed = false })
    -- `fn` returns
    finish : (r : R) → p.worker ≡ working → Move rl (record p { worker = offering r })
    -- `case err := <-fnCh`
    receive :
        (r : R)
        → p.caller ≡ selecting
        → p.worker ≡ offering r
        → Move rl (record p { caller = unlocking (finished r); worker = ended })
    -- `case <-timer.C`, which may come whether or not `fn` has returned
    timeout : p.caller ≡ selecting → Move rl (record p { caller = closing_done })
    -- the deferred `close(doneCh)`
    close_done :
        p.caller ≡ closing_done
        → Move rl (record p { caller = unlocking (exceeded_timeout repo_name); done_closed = true })
    -- the goroutine's `case <-doneCh`
    abandon :
        (r : R)
        → p.worker ≡ offering r
        → p.done_closed ≡ true
        → Move rl (record p { worker = ended })
    -- the deferred `lck.Unlock(repoName)`
    release :
        (o : Outcome R)
        → p.caller ≡ unlocking o
        → Move (unlock rl repo_name).0 (record p { caller = returned o })

pub record System (R : Type 0) : Type 0 where
  pub rl : InMemoryRepoLock
  pub pushes : ℕ → Push R

abbrev pub update {ℓ} : {A : Type ℓ} → (ℕ → A) → ℕ → A → ℕ → A
update f i a j = if i == j then a else f j

-- Call `i` of `wrapInLock` is for the repository `repo i`.
pub data Step {R : Type 0} (repo : ℕ → Bytes) (s : System R) : System R → Type 0 where
  pick :
      (i : ℕ) {rl' : InMemoryRepoLock} {p' : Push R}
      → Move (repo i) s.rl (s.pushes i) rl' p'
      → Step repo s (record { rl = rl'; pushes = update s.pushes i p' })

abbrev pub init : (R : Type 0) → ℤ → System R
init R limit = record {
  rl = new_in_memory_repository_lock limit;
  pushes = λ _. record { caller = idle; worker = absent; done_closed = false };
}

pub data Reach {R : Type 0} (repo : ℕ → Bytes) (limit : ℤ) : System R → Type 0 where
  start : Reach repo limit (init R limit)
  later : {s t : System R} → Reach repo limit s → Step repo s t → Reach repo limit t
