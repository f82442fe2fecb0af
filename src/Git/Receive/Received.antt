-- ===== src/Git/Receive/Received.antt =====
-- When a push is received.
use builder.Base.{
  Option-cases, ◌==◌, Bytes, codes, ◌≡◌, ◌↔◌, ◌⊎◌, inl, inr, refl, List, [], ◌∷◌, ◌++◌, Option,
  some, none, true, false, length, arith,
}
use builder.Text.Equality.{eqb}
use builder.Git.Receive.{
  made_executable, ran_git_init, copied, hook_not_written, not_created, hook_text, call_failed,
  started, made_dir, wrote_hook, Stat, directory, file, not_exist, stat_failed, Calls, Action,
  ReceiveError, call, create_repo, create_pre_receive_hook, finish, git_shell, receive,
}

-- The repository is there, or it can be made.
abbrev pub IsCreated : {E : Type 0} → Calls E → Type 0
IsCreated c =
    (c.stat ≡ directory) ⊎ ((c.stat ≡ not_exist) × (c.mkdir_all ≡ none) × (c.git_init ≡ none))

-- No other call fails, and git-shell writes nothing to its standard error.
abbrev pub IsClean : {E : Type 0} → Calls E → Type 0
IsClean c =
    (c.create ≡ none)
    × (c.execute ≡ none)
    × (c.chmod ≡ none)
    × (c.stdin_pipe ≡ none)
    × (c.start ≡ none)
    × (c.copy ≡ none)
    × (c.wait ≡ none)
    × (c.errbuff ≡ [])

pub Stat-cases :
    {E : Type 0} (s : Stat E)
    → (s ≡ directory) ⊎ (s ≡ not_exist) ⊎ (s ≡ file) ⊎ ((e : E) × (s ≡ stat_failed e))
Stat-cases directory = inl refl
Stat-cases not_exist = inr (inl refl)
Stat-cases file = inr (inr (inl refl))
Stat-cases (stat_failed e) = inr (inr (inr (e, refl)))

length_nil : (s : Bytes) → ((length s == 0) ≡ true) ↔ (s ≡ [])
length_nil [] = (λ h. refl, λ h. ground arith)
length_nil (b ∷ s) = grind arith

call-none :
    {E : Type 0} (action : Action) (o : Option E) (wrap : E → ReceiveError E)
    (rest : List Action × Option (ReceiveError E))
    → ((call action o wrap rest).1 ≡ none) ↔ ((o ≡ none) × (rest.1 ≡ none))
unfolding call
call-none action none wrap rest = (λ h. (refl, h), λ h. h.1)
call-none action (some e) wrap rest = grind arith

module _ {E : Type 0} (c : Calls E) where
  create_repo-none :
      (repo_path : Bytes) (rest : List Action × Option (ReceiveError E))
      → ((create_repo c repo_path rest).1 ≡ none) ↔ (IsCreated c × (rest.1 ≡ none))
  unfolding create_repo
  create_repo-none repo_path rest = grind (
    arith,
    Stat-cases c.stat,
    call-none (made_dir repo_path) c.mkdir_all (λ e. not_created (call_failed e))
        (call (ran_git_init repo_path) c.git_init (λ e. not_created (call_failed e)) rest),
    call-none (ran_git_init repo_path) c.git_init (λ e. not_created (call_failed e)) rest,
  )

  create_pre_receive_hook-none :
      (git_home path : Bytes) (rest : List Action × Option (ReceiveError E))
      → ((create_pre_receive_hook c git_home path rest).1 ≡ none)
        ↔ ((c.create ≡ none) × (c.execute ≡ none) × (c.chmod ≡ none) × (rest.1 ≡ none))
  unfolding create_pre_receive_hook
  create_pre_receive_hook-none git_home path rest = grind (
    arith,
    Option-cases c.create,
    call-none (wrote_hook path (hook_text git_home)) c.execute hook_not_written
        (call (made_executable path) c.chmod hook_not_written rest),
    call-none (made_executable path) c.chmod hook_not_written rest,
  )

  finish-none : (finish c ≡ none) ↔ ((c.wait ≡ none) × (c.errbuff ≡ []))
  unfolding finish
  finish-none = grind (arith, Option-cases c.wait, length_nil c.errbuff)

  git_shell-none :
      (command : Bytes) (env : List Bytes)
      → ((git_shell c command env).1 ≡ none) ↔ (
          (c.stdin_pipe ≡ none)
          × (c.start ≡ none)
          × (c.copy ≡ none)
          × (c.wait ≡ none)
          × (c.errbuff ≡ []))
  unfolding git_shell
  git_shell-none command env = grind (
    arith,
    Option-cases c.stdin_pipe,
    call-none (started command env) c.start call_failed
        (call copied c.copy call_failed ([], finish c)),
    call-none copied c.copy call_failed ([], finish c),
    finish-none,
  )

  -- Outside the mode for tests, a push succeeds exactly when the repository is there or can be made, no
  -- call fails, and git-shell writes nothing to its standard error.
  pub receive_lem :
      (join : Bytes → Bytes → Bytes) (os_environ : List Bytes)
      (repo operation git_home fingerprint username conndata receivetype : Bytes)
      → eqb receivetype (codes "mock") ≡ false
      → ((receive c join os_environ repo operation git_home fingerprint username conndata
            receivetype).1
          ≡ none)
        ↔ (IsCreated c × IsClean c)
  unfolding receive
  receive_lem join os_environ repo operation git_home fingerprint username conndata receivetype h =
      let path = join git_home repo in
      let hook = join path (codes "hooks/pre-receive") in
      let command = operation ++ (codes " '" ++ (repo ++ codes "'")) in
      let env =
        (codes "RECEIVE_USER=" ++ username)
        ∷ (codes "RECEIVE_REPO=" ++ repo)
        ∷ (codes "RECEIVE_FINGERPRINT=" ++ fingerprint)
        ∷ (codes "SSH_ORIGINAL_COMMAND=" ++ command)
        ∷ (codes "SSH_CONNECTION=" ++ conndata)
        ∷ os_environ in
      let shell = git_shell c command env in
      let (a, a') = create_repo-none path (create_pre_receive_hook c git_home hook shell) in
      let (b, b') = create_pre_receive_hook-none git_home hook shell in
      let (d, d') = git_shell-none command env in
      rw (h, receive)
        (
          (λ ok_all.
              let (made, rest) = a ok_all in
              let (x, y, z, rest') = b rest in
              let (u, v, w, k, l) = d rest' in (made, (x, y, z, u, v, w, k, l))),
          λ ready.
              let (x, y, z, u, v, w, k, l) = ready.1 in
              a' (ready.0, b' (x, y, z, d' (u, v, w, k, l))),
        )
