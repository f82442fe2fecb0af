-- ===== src/Sshd/Server/Access.antt =====
-- Who may push where.
use builder.Text.{join}
use builder.Text.Search.{contains-append, Within}
use builder.Sshd.Auth.{permissions, UserInfo}
use builder.Text.Equality.{eqb}
use builder.Sshd.Names.{clean_exec, clean_repo_name}
use builder.Sshd.Lock.{lock, InMemoryRepoLock}
use builder.Maps.{lookup, get, Map}
use builder.Sshd.Server.{
  receive_call, in_time, closed, late, exceeded_timeout, fn_error, replied, Request, ReceiveError,
  split_2, Timing, received, contains, WrapError, Effect, wrap_in_lock, answer, report, answer_loop,
  run_receive, answer_exec, answer_git, ReceiveCall, Server,
}
use builder.Base.{
  append_assoc, append-nil, ◌∙◌, ap, sym, false, Bool, All-append, ok, arith, All, Result-cases,
  take, Bool-cases, codes, Bytes, ◌++◌, ◌∷◌, [], List, some, none, Option, true, inr, inl, refl,
  ◌≡◌, suc, zero, ℕ,
}

module _ {E : Type 0} (s : Server) (extensions : Map Bytes) (condata : Bytes)
    (unmarshal : Bytes → Bytes) (receive : ReceiveCall → Option E) where
  -- A call of `git.Receive` is for the repository of a name that stands in the text of the user's apps,
  -- as the user whose key was accepted.
  abbrev pub IsAllowed : Effect → Type 0
  IsAllowed (received c) =
      (name : Bytes) × (c.repo ≡ name ++ codes ".git")
      × (contains (get (codes "apps") extensions) name ≡ true)
      × (c.username ≡ get (codes "user") extensions)
      × (c.fingerprint ≡ get (codes "fingerprint") extensions)
  IsAllowed _ = Unit

  All-take : (n : ℕ) (es : List Effect) → All IsAllowed es → All IsAllowed (take n es)
  All-take zero es h = tt
  All-take (suc n) [] h = tt
  All-take (suc n) (e ∷ es) h = (h.0, All-take n es h.1)

  run_receive-IsAllowed :
      (name operation : Bytes)
      → All IsAllowed (run_receive s extensions condata unmarshal receive name operation).0
  unfolding run_receive
  run_receive-IsAllowed name operation =
      elim (Bool-cases (contains (get (codes "apps") extensions) name)) [
        | inl has ↦ rw (has, run_receive) (tt, ((name, refl, has, refl, refl), tt))
        | inr lacks ↦ rw (lacks, run_receive) (tt, tt)
      ]

  report-IsAllowed : (r : Option (WrapError E)) → All IsAllowed (report r)
  unfolding report
  report-IsAllowed none = (tt, tt)
  report-IsAllowed (some WrapError.already_locked) = (tt, (tt, tt))
  report-IsAllowed (some (exceeded_timeout n)) = (tt, tt)
  report-IsAllowed (some (fn_error e)) = (tt, tt)

  wrap_in_lock-IsAllowed :
      (rl : InMemoryRepoLock) (name : Bytes) (timing : Timing)
      (fn : List Effect × Option (ReceiveError E))
      → All IsAllowed fn.0
      → All IsAllowed (wrap_in_lock rl name timing fn).1
  unfolding wrap_in_lock
  wrap_in_lock-IsAllowed rl name timing fn h = elim (Result-cases (lock rl name).1) [
    | inl (e, q) ↦ rw (q, wrap_in_lock) tt
    | inr (u, q) ↦ by_timing u q timing
  ]
    where
      by_timing :
          (u : Unit {0})
          → (lock rl name).1 ≡ ok u
          → (t : Timing) → All IsAllowed (wrap_in_lock rl name t fn).1
      by_timing u q in_time = rw (q, wrap_in_lock) h
      by_timing u q (late done) = rw (q, wrap_in_lock) (All-take done fn.0 h)

  answer_git-IsAllowed :
      (rl : InMemoryRepoLock) (timing : Timing) (parts : Bytes × Option Bytes)
      → All IsAllowed (answer_git s extensions condata unmarshal receive rl timing parts).1
  unfolding answer_git
  answer_git-IsAllowed rl timing (command, none) = (tt, (tt, tt))
  answer_git-IsAllowed rl timing (command, some path) = elim (Result-cases (clean_repo_name path)) [
    | inl (e, bad) ↦ rw (bad, answer_git) (tt, tt)
    | inr (name, good) ↦
        rw (good, answer_git)
          (All-append _ _ _
            (wrap_in_lock-IsAllowed rl name timing
              (run_receive s extensions condata unmarshal receive name command)
              (run_receive-IsAllowed name command))
            (report-IsAllowed _))
  ]

  answer_exec-IsAllowed :
      (rl : InMemoryRepoLock) (timing : Timing) (payload : Bytes)
      → All IsAllowed (answer_exec s extensions condata unmarshal receive rl timing payload).1
  unfolding answer_exec
  answer_exec-IsAllowed rl timing payload =
      ground (arith, answer_git-IsAllowed rl timing (split_2 (clean_exec unmarshal payload) b' '))

  answer_loop-IsAllowed :
      (rl : InMemoryRepoLock) (timing : Timing) (requests : List Request) (done : List Effect)
      → All IsAllowed done
      → All IsAllowed (answer_loop s extensions condata unmarshal receive rl timing requests done).1
  unfolding answer_loop
  answer_loop-IsAllowed rl timing [] done h = h
  answer_loop-IsAllowed rl timing (r ∷ rest) done h = elim (Bool-cases (eqb r.type (codes "env"))) [
    | inl env ↦
        rw (env, answer_loop)
          (answer_loop-IsAllowed rl timing rest (done ++ replied true ∷ []) (snoc true))
    | inr not_env ↦ elim (Bool-cases (eqb r.type (codes "exec"))) [
      | inl exec ↦
          rw (not_env, exec, answer_loop)
            (All-append _ done _ h (answer_exec-IsAllowed rl timing r.payload))
      | inr other ↦
          rw (not_env, other, answer_loop)
            (answer_loop-IsAllowed rl timing rest (done ++ replied false ∷ []) (snoc false))
    ]
  ]
    where
      snoc : (b : Bool) → All IsAllowed (done ++ replied b ∷ [])
      snoc b = All-append _ done (replied b ∷ []) h (tt, tt)

  -- Whatever a client sends, every call of `git.Receive` is for the repository of a name that stands in
  -- the text of the user's apps, with the user's name and the fingerprint of the key that was accepted.
  pub answer-IsAllowed :
      (rl : InMemoryRepoLock) (timing : Timing) (requests : List Request)
      → All IsAllowed (answer s extensions condata unmarshal receive rl timing requests).1
  unfolding answer
  answer-IsAllowed rl timing requests =
      All-append _ _ (closed ∷ []) (answer_loop-IsAllowed rl timing requests [] tt) (tt, tt)

-- A part stands in the joined text.
join-Within :
    (before : List Bytes) (p : Bytes) (after : List Bytes) (sep : Bytes)
    → Within p (join (before ++ p ∷ after) sep)
unfolding join
join-Within [] p [] sep = ([], [], sym (append-nil p))
join-Within [] p (q ∷ after) sep = ([], sep ++ join (q ∷ after) sep, refl)
join-Within (x ∷ []) p after sep =
    let (a, b, e) = join-Within [] p after sep in
    (x ++ (sep ++ a), b, ap (λ (t : Bytes). x ++ (sep ++ t)) e ∙ regroup x sep a (p ++ b))
  where
    regroup : (x y z t : Bytes) → x ++ (y ++ (z ++ t)) ≡ (x ++ (y ++ z)) ++ t
    regroup x y z t = simp append_assoc
join-Within (x ∷ y ∷ before) p after sep =
    let (a, b, e) = join-Within (y ∷ before) p after sep in
    (x ++ (sep ++ a), b, ap (λ (t : Bytes). x ++ (sep ++ t)) e ∙ regroup x sep a (p ++ b))
  where
    regroup : (x y z t : Bytes) → x ++ (y ++ (z ++ t)) ≡ (x ++ (y ++ z)) ++ t
    regroup x y z t = simp append_assoc

-- The permission to push is a test on text: a user with an app whose name is `a`, `name` and `b` in a
-- row may push to the repository `name`, whether or not `name` is an app of the user's.
pub substring_has_access :
    {E : Type 0} (s : Server) (condata : Bytes) (unmarshal : Bytes → Bytes)
    (receive : ReceiveCall → Option E) (user_info : UserInfo) (fp : Bytes)
    (before after : List Bytes) (a name b operation : Bytes)
    → user_info.apps ≡ before ++ (a ++ (name ++ b)) ∷ after
    → (run_receive s (permissions user_info fp) condata unmarshal receive name operation).0
      ≡ replied true
        ∷ received
            (receive_call s (permissions user_info fp) condata unmarshal receive name operation)
        ∷ []
unfolding run_receive permissions get lookup eqb
substring_has_access s condata unmarshal receive user_info fp before after a name b operation e =
    ground (arith, found)
  where
    found : contains (join user_info.apps (codes ", ")) name ≡ true
    found =
        let (x, y, q) = join-Within before (a ++ (name ++ b)) after (codes ", ") in
        rw (e, q) (rw (regroup x a name b y) (contains-append (x ++ a) name (b ++ y)))
      where
        regroup : (x a n b y : Bytes) → x ++ ((a ++ (n ++ b)) ++ y) ≡ (x ++ a) ++ (n ++ (b ++ y))
        regroup x a n b y = simp append_assoc
