-- ===== src/Sshd/Server/Replies.antt =====
-- How a channel's requests are answered, and what the answer does to the lock.
use builder.Base.{
  Bool-cases, is_none, Result-cases, take, if◌then◌else◌, ok, some, refl, ℕ, true, inr, inl, All,
  codes, Bytes, arith, append_assoc, append-nil, map, ◌++◌, ◌∷◌, [], List, none, Option, false, ◌≡◌,
}
use mathlib.Core.Option
use builder.Text.Equality.{eqb, eqb_iff}
use builder.Maps.{Map}
use builder.Sshd.Lock.{InMemoryRepoLock, lock, unlock}
use builder.Sshd.Lock.Held.{
  lock_taken, held, IsMarked, lock-held, unlock-held, lock-unlock-IsMarked, lock_free,
}
use builder.Sshd.Names.{clean_exec, clean_repo_name, git_pkt_line}
use builder.Sshd.Server.{
  exceeded_timeout, fn_error, split_2, Request, Server, ReceiveCall, Effect, replied, wrote,
  sent_exit_status, closed, ReceiveError, Timing, in_time, late, WrapError, wrap_in_lock,
  run_receive, answer_git, answer_exec, answer_loop, answer,
}

module _ {E : Type 0} (rl : InMemoryRepoLock) (name : Bytes) (timing : Timing)
    (fn : List Effect × Option (ReceiveError E)) where
  wrap_taken :
      held rl name ≡ true → wrap_in_lock rl name timing fn ≡ (rl, [], some WrapError.already_locked)
  unfolding wrap_in_lock
  wrap_taken h = ground (arith, lock_taken rl name h)

  -- What the call of a free name does and returns.
  abbrev ran : Timing → List Effect × Option (WrapError E)
  ran in_time = (fn.0, Option.map fn_error fn.1)
  ran (late done) = (take done fn.0, some (exceeded_timeout name))

  wrap_free :
      held rl name ≡ false
      → wrap_in_lock rl name timing fn
        ≡ ((unlock (lock rl name).0 name).0, (ran timing).0, (ran timing).1)
  unfolding wrap_in_lock
  wrap_free h = ground (arith, lock_free rl name h)

  -- A call of `wrapInLock` that has returned has left the set of held names as it was.
  wrap_in_lock-held :
      (k : Bytes) → IsMarked rl → held (wrap_in_lock rl name timing fn).0 k ≡ held rl k
  wrap_in_lock-held k m = elim (Bool-cases (held rl name)) [
    | inl taken ↦ rw (wrap_taken taken)
    | inr free ↦ rw (wrap_free free) (ground (arith, released free))
  ]
    where
      released : held rl name ≡ false → held (unlock (lock rl name).0 name).0 k ≡ held rl k
      released free = ground (
        arith,
        unlock-held (lock rl name).0 name k (lock-unlock-IsMarked rl name m).0,
        lock-held rl name k,
        eqb_iff name k,
      )

not_env : (t : Bytes) → t ≡ codes "exec" → eqb t (codes "env") ≡ false
unfolding eqb
not_env t e = rw e

is_exec : (t : Bytes) → t ≡ codes "exec" → eqb t (codes "exec") ≡ true
unfolding eqb
is_exec t e = rw e

-- The requests that stand before an "exec".
abbrev pub IsNotExec : Request → Type 0
IsNotExec r = eqb r.type (codes "exec") ≡ false

-- Of these, an "env" is granted and any other is refused.
abbrev pub reply_to : Request → Effect
reply_to r = replied (eqb r.type (codes "env"))

module _ {E : Type 0} (s : Server) (extensions : Map Bytes) (condata : Bytes)
    (unmarshal : Bytes → Bytes) (receive : ReceiveCall → Option E) where
  answer_loop_before :
      (rl : InMemoryRepoLock) (timing : Timing) (before rest : List Request) (done : List Effect)
      → All IsNotExec before
      → answer_loop s extensions condata unmarshal receive rl timing (before ++ rest) done
        ≡ answer_loop s extensions condata unmarshal receive rl timing rest
            (done ++ map reply_to before)
  unfolding answer_loop
  answer_loop_before rl timing [] rest done h = rw append-nil
  answer_loop_before rl timing (r ∷ before) rest done h = ground (
    arith,
    answer_loop_before rl timing before rest (done ++ reply_to r ∷ []) h.1,
    append_assoc done (reply_to r ∷ []) (map reply_to before),
  )

  -- Each request before the first "exec" gets one reply, which is true for "env" and false for any other
  -- type. The first "exec" is answered, the requests behind it are not, and the channel is closed last;
  -- a channel with no "exec" leaves the lock as it is and fails with nothing.
  pub answer_lem :
      (rl : InMemoryRepoLock) (timing : Timing) (before : List Request) (exec : Request)
      (behind : List Request)
      → All IsNotExec before
      → exec.type ≡ codes "exec"
      → (answer s extensions condata unmarshal receive rl timing (before ++ exec ∷ behind) ≡ (
        (answer_exec s extensions condata unmarshal receive rl timing exec.payload).0,
        (map reply_to before
              ++ (answer_exec s extensions condata unmarshal receive rl timing exec.payload).1)
            ++ closed ∷ [],
        (answer_exec s extensions condata unmarshal receive rl timing exec.payload).2,
      ))
        × (answer s extensions condata unmarshal receive rl timing before
            ≡ (rl, map reply_to before ++ closed ∷ [], none))
  unfolding answer
  answer_lem rl timing before exec behind h e = (
    rw (
      answer_loop_before rl timing before (exec ∷ behind) [] h,
      answer_loop,
      not_env exec.type e,
      is_exec exec.type e,
    ),
    rw (← append-nil before)
        (rw (answer_loop_before rl timing before [] [] h, answer_loop) (rw append-nil)),
  )

  answer_git-held :
      (rl : InMemoryRepoLock) (timing : Timing) (parts : Bytes × Option Bytes) (k : Bytes)
      → IsMarked rl
      → held (answer_git s extensions condata unmarshal receive rl timing parts).0 k ≡ held rl k
  unfolding answer_git
  answer_git-held rl timing (command, none) k m = refl
  answer_git-held rl timing (command, some path) k m = elim (Result-cases (clean_repo_name path)) [
    | inl (e, bad) ↦ rw (bad, answer_git)
    | inr (name, good) ↦
        rw (good, answer_git)
          (wrap_in_lock-held rl name timing
            (run_receive s extensions condata unmarshal receive name command) k m)
  ]

  answer_exec-held :
      (rl : InMemoryRepoLock) (timing : Timing) (payload : Bytes) (k : Bytes)
      → IsMarked rl
      → held (answer_exec s extensions condata unmarshal receive rl timing payload).0 k ≡ held rl k
  unfolding answer_exec
  answer_exec-held rl timing payload k m =
      ground (arith, answer_git-held rl timing (split_2 (clean_exec unmarshal payload) b' ') k m)

  answer_loop-held :
      (rl : InMemoryRepoLock) (timing : Timing) (requests : List Request) (done : List Effect)
      (k : Bytes)
      → IsMarked rl
      → held (answer_loop s extensions condata unmarshal receive rl timing requests done).0 k
        ≡ held rl k
  unfolding answer_loop
  answer_loop-held rl timing [] done k m = refl
  answer_loop-held rl timing (r ∷ rest) done k m = ground (
    arith,
    answer_exec-held rl timing r.payload k m,
    answer_loop-held rl timing rest (done ++ replied true ∷ []) k m,
    answer_loop-held rl timing rest (done ++ replied false ∷ []) k m,
  )

  -- Where every stored value of the lock is `true`: however the answer to a channel ends, with an error, a
  -- timeout, a refusal or a push, the names that are locked are those that were locked before it.
  pub answer-held :
      (rl : InMemoryRepoLock) (timing : Timing) (requests : List Request) (k : Bytes)
      → IsMarked rl
      → held (answer s extensions condata unmarshal receive rl timing requests).0 k ≡ held rl k
  unfolding answer
  answer-held rl timing requests k m = answer_loop-held rl timing requests [] k m

  -- A git command whose repository has an accepted name that is locked is refused with an error in git's
  -- format and exit status 1, with no call of `git.Receive`, and the lock stays as it is.
  pub push_refused :
      (rl : InMemoryRepoLock) (timing : Timing) (command path name : Bytes)
      → clean_repo_name path ≡ ok name
      → held rl name ≡ true
      → answer_git s extensions condata unmarshal receive rl timing (command, some path) ≡ (
        rl,
        wrote (git_pkt_line (codes "ERR Another git push is ongoing\n")) ∷ sent_exit_status 1 ∷ [],
        none,
      )
  unfolding answer_git
  push_refused rl timing command path name good taken =
      rw (good, answer_git)
        (rw (
          wrap_taken rl name timing
            (run_receive s extensions condata unmarshal receive name command) taken))

  -- A git command whose repository has an accepted name that is not locked: if it is done in time, all that
  -- `runReceive` does is done, and then the exit status is sent, 0 if `runReceive` succeeds and 1 if it
  -- fails; if it is not, exit status 1 is sent after as much as has been done.
  pub push_answered :
      (rl : InMemoryRepoLock) (done : ℕ) (command path name : Bytes)
      → clean_repo_name path ≡ ok name
      → held rl name ≡ false
      → ((answer_git s extensions condata unmarshal receive rl in_time (command, some path)).1
          ≡ (run_receive s extensions condata unmarshal receive name command).0
            ++ sent_exit_status (
                if is_none (run_receive s extensions condata unmarshal receive name command).1
                then 0
                else 1)
              ∷ [])
        × ((answer_git s extensions condata unmarshal receive rl (late done) (command, some path)).1
            ≡ take done (run_receive s extensions condata unmarshal receive name command).0
              ++ sent_exit_status 1 ∷ [])
  unfolding answer_git
  push_answered rl done command path name good free = (
    rw (good, answer_git)
        (rw
          (wrap_free rl name in_time
            (run_receive s extensions condata unmarshal receive name command) free)
          (ground arith)),
    rw (good, answer_git)
        (rw (
          wrap_free rl name (late done)
            (run_receive s extensions condata unmarshal receive name command) free)),
  )
