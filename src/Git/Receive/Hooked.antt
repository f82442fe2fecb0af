-- ===== src/Git/Receive/Hooked.antt =====
-- What holds of each action of a push, and when git-shell is started.
use builder.Base.{
  All-append, Bool-cases, All, Option-cases, Bytes, codes, ◌≡◌, inl, inr, refl, List, [], Option,
  some, none,
}
use builder.Text.Equality.{eqb}
use builder.Git.Receive.{
  made_executable, ran_git_init, copied, hook_text, started, made_dir, wrote_hook, Calls, Action,
  ReceiveError, call, create_repo, create_pre_receive_hook, finish, git_shell, receive,
}
use builder.Git.Receive.Received.{IsCreated, Stat-cases}

module _ {E : Type 0} (c : Calls E) where
  module _ (P : Action → Type 0) where
    pub call-All :
        (action : Action) (o : Option E) (wrap : E → ReceiveError E)
        (rest : List Action × Option (ReceiveError E))
        → P action
        → (o ≡ none → All P rest.0)
        → All P (call action o wrap rest).0
    unfolding call
    call-All action none wrap rest h r = (h, r refl)
    call-All action (some e) wrap rest h r = (h, tt)

    pub create_repo-All :
        (path : Bytes) (rest : List Action × Option (ReceiveError E))
        → P (made_dir path)
        → P (ran_git_init path)
        → (IsCreated c → All P rest.0)
        → All P (create_repo c path rest).0
    unfolding create_repo
    create_repo-All path rest m g r = elim (Stat-cases c.stat) [
      | inl there ↦ rw (there, create_repo) (r (inl there))
      | inr (inl gone) ↦
          rw (gone, create_repo)
            (call-All _ c.mkdir_all _ _ m λ made.
              call-All _ c.git_init _ rest g λ initialised. r (inr (gone, made, initialised)))
      | inr (inr (inl f)) ↦ rw (f, create_repo) tt
      | inr (inr (inr (e, failed))) ↦ rw (failed, create_repo) tt
    ]

    pub create_pre_receive_hook-All :
        (git_home path : Bytes) (rest : List Action × Option (ReceiveError E))
        → P (wrote_hook path (hook_text git_home))
        → P (made_executable path)
        → (c.create ≡ none → c.execute ≡ none → c.chmod ≡ none → All P rest.0)
        → All P (create_pre_receive_hook c git_home path rest).0
    unfolding create_pre_receive_hook
    create_pre_receive_hook-All git_home path rest wh me r = elim (Option-cases c.create) [
      | inr (e, failed) ↦ rw (failed, create_pre_receive_hook) tt
      | inl created ↦
          rw (created, create_pre_receive_hook)
            (call-All _ c.execute _ _ wh
              λ executed. call-All _ c.chmod _ rest me λ moded. r created executed moded)
    ]

    pub git_shell-All :
        (command : Bytes) (env : List Bytes)
        → P (started command env)
        → P copied
        → All P (git_shell c command env).0
    unfolding git_shell
    git_shell-All command env st co = elim (Option-cases c.stdin_pipe) [
      | inr (e, failed) ↦ rw (failed, git_shell) tt
      | inl piped ↦
          rw (piped, git_shell)
            (call-All _ c.start _ _ st λ begun. call-All _ c.copy _ ([], finish c) co λ done. tt)
    ]

  -- git-shell may be started: the repository has been made or was there, and its hook has been written and
  -- made executable.
  abbrev pub IsHooked : Action → Type 0
  IsHooked (started command env) =
      IsCreated c × (c.create ≡ none) × (c.execute ≡ none) × (c.chmod ≡ none)
  IsHooked _ = Unit

  -- Whatever fails, git-shell is started only where the repository has been made or was there, and its hook
  -- has been written and made executable.
  pub receive-IsHooked :
      (join : Bytes → Bytes → Bytes) (os_environ : List Bytes)
      (repo operation git_home fingerprint username conndata receivetype : Bytes)
      → All IsHooked
          (receive c join os_environ repo operation git_home fingerprint username conndata
            receivetype).0
  unfolding receive
  receive-IsHooked join os_environ repo operation git_home fingerprint username conndata
        receivetype =
      elim (Bool-cases (eqb receivetype (codes "mock"))) [
        | inl mock ↦ rw (mock, receive) (tt, tt)
        | inr real ↦
            rw (real, receive)
              (All-append IsHooked _ _
                (create_repo-All IsHooked _ _ tt tt λ created.
                  create_pre_receive_hook-All IsHooked git_home _ _ tt tt
                    λ x y z. git_shell-All IsHooked _ _ (created, x, y, z) tt)
                (tt, tt))
      ]
