-- ===== src/Git/Receive/Started.antt =====
-- The environment in which git-shell is started.
use builder.Base.{
  All, All-append, Bytes, codes, ◌≡◌, refl, List, ◌∷◌, ◌++◌, Bool-cases, inl, inr, In, All-In,
}
use builder.Text.Equality.{eqb}
use builder.Git.Receive.{Calls, Action, started, receive}
use builder.Git.Receive.Hooked.{create_repo-All, create_pre_receive_hook-All, git_shell-All}

-- The environment that git-shell gets for a push.
abbrev pub push_env :
    List Bytes → (repo operation fingerprint username conndata : Bytes) → List Bytes
push_env os_environ repo operation fingerprint username conndata =
    (codes "RECEIVE_USER=" ++ username)
    ∷ (codes "RECEIVE_REPO=" ++ repo)
    ∷ (codes "RECEIVE_FINGERPRINT=" ++ fingerprint)
    ∷ (codes "SSH_ORIGINAL_COMMAND=" ++ (operation ++ (codes " '" ++ (repo ++ codes "'"))))
    ∷ (codes "SSH_CONNECTION=" ++ conndata)
    ∷ os_environ

module _ {E : Type 0} (c : Calls E) (join : Bytes → Bytes → Bytes) (os_environ : List Bytes)
    (repo operation git_home fingerprint username conndata receivetype : Bytes) where
  abbrev IsStarted : Action → Type 0
  IsStarted (started command env) =
      env ≡ push_env os_environ repo operation fingerprint username conndata
  IsStarted _ = Unit

  receive-IsStarted :
      All IsStarted
        (receive c join os_environ repo operation git_home fingerprint username conndata
          receivetype).0
  unfolding receive
  receive-IsStarted = elim (Bool-cases (eqb receivetype (codes "mock"))) [
    | inl mock ↦ rw (mock, receive) (tt, tt)
    | inr real ↦
        rw (real, receive)
          (All-append IsStarted _ _
            (create_repo-All c IsStarted _ _ tt tt λ created.
              create_pre_receive_hook-All c IsStarted git_home _ _ tt tt
                λ x y z. git_shell-All c IsStarted _ _ refl tt)
            (tt, tt))
  ]

  -- git-shell is only started in the environment of the push.
  pub started_env :
      (command : Bytes) (env : List Bytes)
      → In
          (started command env)
          (receive c join os_environ repo operation git_home fingerprint username conndata
            receivetype).0
      → env ≡ push_env os_environ repo operation fingerprint username conndata
  started_env command env here = All-In IsStarted (started command env) _ receive-IsStarted here
