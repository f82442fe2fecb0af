-- ===== src/Sshd/Lock/Refined.antt =====
-- Runs of the lock against an abstract lock, which is a set of names.
use builder.Base.{Bytes, Bool, true, false, not, List, [], ◌∷◌, ◌≡◌, refl, if◌then◌else◌}
use builder.Base.Int.{ℤ}
use builder.Text.Equality.{eqb}
use builder.Sshd.Lock.{InMemoryRepoLock, new_in_memory_repository_lock, lock, unlock}
use builder.Sshd.Lock.Held.{
  held, succeeds, IsMarked, new-IsMarked, new-held, lock-held, unlock-held, lock-unlock-IsMarked,
}

-- A call of one of the two methods that change a lock.
pub data Call : Type 0 where
  locking : Bytes → Call
  unlocking : Bytes → Call

-- The calls, in the order in which they get the mutex: what is left, and whether each succeeded.
pub run_calls : List Call → InMemoryRepoLock → InMemoryRepoLock × List Bool
run_calls [] rl = (rl, [])
run_calls (locking name ∷ calls) rl =
    let (rl', answers) = run_calls calls (lock rl name).0 in
    (rl', succeeds (lock rl name).1 ∷ answers)
run_calls (unlocking name ∷ calls) rl =
    let (rl', answers) = run_calls calls (unlock rl name).0 in
    (rl', succeeds (unlock rl name).1 ∷ answers)

-- The same on the set of names: locking succeeds on a name that is not in it and puts it in, and unlocking
-- succeeds on one that is, and takes it out.
pub run_set : List Call → (Bytes → Bool) → (Bytes → Bool) × List Bool
run_set [] set = (set, [])
run_set (locking name ∷ calls) set =
    let (set', answers) = run_set calls (λ k. if eqb name k then true else set k) in
    (set', not (set name) ∷ answers)
run_set (unlocking name ∷ calls) set =
    let (set', answers) = run_set calls (λ k. if eqb name k then false else set k) in
    (set', set name ∷ answers)

run_calls-run_set :
    (calls : List Call) (rl : InMemoryRepoLock) (set : Bytes → Bool)
    → IsMarked rl
    → ((k : Bytes) → held rl k ≡ set k)
    → ((run_calls calls rl).1 ≡ (run_set calls set).1)
      × ((k : Bytes) → held (run_calls calls rl).0 k ≡ (run_set calls set).0 k)
unfolding run_calls run_set
run_calls-run_set [] rl set m same = (refl, same)
run_calls-run_set (locking name ∷ calls) rl set m same =
    let (answers, left) =
      run_calls-run_set calls (lock rl name).0 (λ k. if eqb name k then true else set k)
        (lock-unlock-IsMarked rl name m).0 (λ k. rw ((lock-held rl name k).1, same k)) in
    (rw ((lock-held rl name name).0, same name, answers), left)
run_calls-run_set (unlocking name ∷ calls) rl set m same =
    let (answers, left) =
      run_calls-run_set calls (unlock rl name).0 (λ k. if eqb name k then false else set k)
        (lock-unlock-IsMarked rl name m).1 (λ k. rw ((unlock-held rl name k m).1, same k)) in
    (rw ((unlock-held rl name name m).0, same name, answers), left)

-- From a new lock, any sequence of calls of `Lock` and `Unlock`, for any names, succeeds and fails as it
-- does on a set of names that is empty at first, and the names that are locked afterwards are that set.
pub run_calls_lem :
    (timeout : ℤ) (calls : List Call)
    → ((run_calls calls (new_in_memory_repository_lock timeout)).1 ≡ (run_set calls (λ k. false)).1)
      × ((k : Bytes)
          → held (run_calls calls (new_in_memory_repository_lock timeout)).0 k
            ≡ (run_set calls (λ k. false)).0 k)
run_calls_lem timeout calls =
    run_calls-run_set calls (new_in_memory_repository_lock timeout) (λ k. false)
      (new-IsMarked timeout) (new-held timeout)
