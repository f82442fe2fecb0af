-- ===== src/Sshd/Wrap/Invariant.antt =====
-- Who holds which repository, and how far each goroutine is: true at the start, kept by every step.
use builder.Base.Int.{ℤ}
use builder.Base.{
  Bool-cases, ◌∙◌, sym, err, ℕ, ◌≡◌, refl, inl, inr, Bool, true, false, Bytes, arith, if◌then◌else◌,
}
use builder.Text.Equality.{eqb_sound, eqb, eqb_iff}
use builder.Sshd.Lock.{LockError, InMemoryRepoLock, lock}
use builder.Sshd.Lock.Held.{
  held, lock-held, unlock-held, IsMarked, lock-unlock-IsMarked, new-IsMarked, new-held,
}
use builder.Sshd.Wrap.{
  Caller, idle, selecting, closing_done, unlocking, returned, Outcome, already_locked,
  exceeded_timeout, finished, Worker, working, offering, Push, Move, refuse, acquire, finish,
  receive, timeout, close_done, abandon, release, System, update, pick, init, Reach, start, later,
}

module _ {R : Type 0} where
  -- Between a `Lock` that succeeded and the deferred `Unlock`.
  abbrev pub holding : Caller R → Bool
  holding selecting = true
  holding closing_done = true
  holding (unlocking _) = true
  holding _ = false

  -- Whether the goroutine is still to send, or to give up.
  abbrev pub is_running : Worker R → Bool
  is_running working = true
  is_running (offering _) = true
  is_running _ = false

  abbrev pub IsOutcome : Outcome R → Push R → Type 0
  IsOutcome already_locked p = is_running p.worker ≡ false
  IsOutcome (exceeded_timeout _) p = p.done_closed ≡ true
  IsOutcome (finished _) p = is_running p.worker ≡ false

  -- A goroutine that is running has a call that receives from it, or that closes its `doneCh`.
  abbrev pub IsCoherent : Caller R → Push R → Type 0
  IsCoherent idle p = is_running p.worker ≡ false
  IsCoherent (unlocking o) p = IsOutcome o p
  IsCoherent (returned o) p = IsOutcome o p
  IsCoherent _ p = (is_running p.worker ≡ true) × (p.done_closed ≡ false)

pub record Inv {R : Type 0} (repo : ℕ → Bytes) (rl : InMemoryRepoLock) (pushes : ℕ → Push R)
    : Type 0 where
  pub marked : IsMarked rl
  pub holds : (i : ℕ) → holding (pushes i).caller ≡ true → held rl (repo i) ≡ true
  pub owned :
      (k : Bytes) → held rl k ≡ true → (i : ℕ) × (holding (pushes i).caller ≡ true) × (repo i ≡ k)
  pub unique :
      (i j : ℕ)
      → holding (pushes i).caller ≡ true
      → holding (pushes j).caller ≡ true
      → repo i ≡ repo j
      → i ≡ j
  pub coherent : (i : ℕ) → IsCoherent (pushes i).caller (pushes i)

-- What a move does to the set of held names, and to whether its call holds one.
data Effect (name : Bytes) (rl rl' : InMemoryRepoLock) (before after : Bool) : Type 0 where
  keep : after ≡ before → ((k : Bytes) → held rl' k ≡ held rl k) → Effect name rl rl' before after
  take :
      before ≡ false
      → after ≡ true
      → held rl name ≡ false
      → ((k : Bytes) → held rl' k ≡ (if eqb name k then true else held rl k))
      → Effect name rl rl' before after
  drop :
      before ≡ true
      → after ≡ false
      → ((k : Bytes) → held rl' k ≡ (if eqb name k then false else held rl k))
      → Effect name rl rl' before after

refused_lock :
    (name : Bytes) (rl : InMemoryRepoLock) {e : LockError}
    → (lock rl name).1 ≡ err e
    → (k : Bytes) → held (lock rl name).0 k ≡ held rl k
unfolding lock
refused_lock name rl q k = ground arith

module _ {R : Type 0} {name : Bytes} {rl : InMemoryRepoLock} {p : Push R} where
  Move-Effect :
      {rl' : InMemoryRepoLock} {p' : Push R}
      → IsMarked rl
      → Move name rl p rl' p'
      → Effect name rl rl' (holding p.caller) (holding p'.caller)
  Move-Effect m (refuse e q) = keep (ground arith) (refused_lock name rl q)
  Move-Effect m (acquire e q) =
      take (ground arith) refl (ground (arith, lock-held rl name name))
        (λ k. (lock-held rl name k).1)
  Move-Effect m (finish r e) = keep refl (λ k. refl)
  Move-Effect m (receive r e q) = keep (ground arith) (λ k. refl)
  Move-Effect m (timeout e) = keep (ground arith) (λ k. refl)
  Move-Effect m (close_done e) = keep (ground arith) (λ k. refl)
  Move-Effect m (abandon r e q) = keep refl (λ k. refl)
  Move-Effect m (release o e) = drop (ground arith) refl (λ k. (unlock-held rl name k m).1)

  Move-IsMarked :
      {rl' : InMemoryRepoLock} {p' : Push R} → Move name rl p rl' p' → IsMarked rl → IsMarked rl'
  Move-IsMarked (refuse e q) m = (lock-unlock-IsMarked rl name m).0
  Move-IsMarked (acquire e q) m = (lock-unlock-IsMarked rl name m).0
  Move-IsMarked (release o e) m = (lock-unlock-IsMarked rl name m).1
  Move-IsMarked (finish r e) m = m
  Move-IsMarked (receive r e q) m = m
  Move-IsMarked (timeout e) m = m
  Move-IsMarked (close_done e) m = m
  Move-IsMarked (abandon r e q) m = m

  Move-IsCoherent :
      {rl' : InMemoryRepoLock} {p' : Push R}
      → Move name rl p rl' p'
      → IsCoherent p.caller p
      → IsCoherent p'.caller p'
  Move-IsCoherent (refuse e q) c = ground arith
  Move-IsCoherent (acquire e q) c = (refl, refl)
  Move-IsCoherent (finish r e) c = ground arith
  Move-IsCoherent (receive r e q) c = refl
  Move-IsCoherent (timeout e) c = ground arith
  Move-IsCoherent (close_done e) c = refl
  Move-IsCoherent (abandon r e q) c = ground arith
  Move-IsCoherent (release o e) c = ground arith

module _ {R : Type 0} {repo : ℕ → Bytes} {rl rl' : InMemoryRepoLock} {pushes : ℕ → Push R} where
  module _ (v : Inv repo rl pushes) (i : ℕ) (p' : Push R) where
    Effect-holds :
        Effect (repo i) rl rl' (holding (pushes i).caller) (holding p'.caller)
        → (j : ℕ) → holding (update pushes i p' j).caller ≡ true
        → held rl' (repo j) ≡ true
    Effect-holds (keep e same) j h = ground (arith, v.holds j, v.holds i, same (repo j))
    Effect-holds (take b a free new) j h =
        ground (arith, v.holds j, new (repo j), eqb_iff (repo i) (repo j))
    Effect-holds (drop b a new) j h =
        ground (arith, v.holds j, new (repo j), v.unique i j, eqb_iff (repo i) (repo j))

    Effect-owned :
        Effect (repo i) rl rl' (holding (pushes i).caller) (holding p'.caller)
        → (k : Bytes) → held rl' k ≡ true
        → (j : ℕ) × (holding (update pushes i p' j).caller ≡ true) × (repo j ≡ k)
    Effect-owned (keep e same) k h =
        let (j, hj, at) = v.owned k (sym (same k) ∙ h) in (j, ground arith, at)
    Effect-owned (take b a free new) k h = elim (Bool-cases (eqb (repo i) k)) [
      | inl mine ↦ (i, ground arith, eqb_sound (repo i) k mine)
      | inr other ↦ let (j, hj, at) = v.owned k (ground (arith, new k)) in (j, ground arith, at)
    ]
    Effect-owned (drop b a new) k h =
        let (j, hj, at) = v.owned k (ground (arith, new k)) in
        (j, ground (arith, new k, eqb_iff (repo i) k), at)

    Effect-unique :
        Effect (repo i) rl rl' (holding (pushes i).caller) (holding p'.caller)
        → (j k : ℕ) → holding (update pushes i p' j).caller ≡ true
        → holding (update pushes i p' k).caller ≡ true
        → repo j ≡ repo k
        → j ≡ k
    Effect-unique (keep e same) j k hj hk at = ground (arith, v.unique j k)
    Effect-unique (take b a free new) j k hj hk at =
        ground (arith, v.unique j k, v.holds j, v.holds k)
    Effect-unique (drop b a new) j k hj hk at = ground (arith, v.unique j k)

  Move-Inv :
      (i : ℕ) {p' : Push R}
      → Move (repo i) rl (pushes i) rl' p'
      → Inv repo rl pushes
      → Inv repo rl' (update pushes i p')
  Move-Inv i {p'} mv v = record {
    marked = Move-IsMarked mv v.marked;
    holds = Effect-holds v i p' (Move-Effect v.marked mv);
    owned = Effect-owned v i p' (Move-Effect v.marked mv);
    unique = Effect-unique v i p' (Move-Effect v.marked mv);
    coherent = λ j. ground (arith, v.coherent j, Move-IsCoherent mv (v.coherent i));
  }

init-Inv :
    {R : Type 0} (repo : ℕ → Bytes) (limit : ℤ) → Inv repo (init R limit).rl (init R limit).pushes
init-Inv repo limit = record {
  marked = new-IsMarked limit;
  holds = λ i h. ground arith;
  owned = λ k h. cc (new-held limit k);
  unique = λ i j h k e. ground arith;
  coherent = λ i. refl;
}

pub Reach-Inv :
    {R : Type 0} {repo : ℕ → Bytes} {limit : ℤ} {s : System R}
    → Reach repo limit s
    → Inv repo s.rl s.pushes
Reach-Inv {repo} {limit} start = init-Inv repo limit
Reach-Inv (later r (pick i mv)) = Move-Inv i mv (Reach-Inv r)
