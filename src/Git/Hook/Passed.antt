-- ===== src/Git/Hook/Passed.antt =====
-- What the hook's command is told of a push.
use builder.Base.{All, Bytes, codes, ◌≡◌, List, [], ◌∷◌, ◌++◌, some, none, arith}
use builder.Text.{has_prefix, trim_prefix}
use builder.Text.Search.{has_prefix-append}
use builder.Text.Trim.{trim_prefix-append}
use builder.Text.Equality.{eqb}
use builder.Git.Receive.Started.{push_env}
use builder.Git.Hook.{getenv, hook_env}

getenv_here :
    (name value : Bytes) (env : List Bytes)
    → getenv env name ≡ none
    → getenv (((name ++ codes "=") ++ value) ∷ env) name ≡ some value
unfolding getenv
getenv_here name value env h =
    rw (h, getenv)
      (rw
        (has_prefix-append (name ++ codes "=") value, trim_prefix-append (name ++ codes "=") value))

-- The names that a variable of the server's own environment is not to have: those by which `Receive` tells
-- git-shell of a push, and those that `envconfig.Process` prefers to the tags.
abbrev pub reserved : List Bytes
reserved =
    codes "RECEIVE_REPO"
    ∷ codes "RECEIVE_USER"
    ∷ codes "SSH_ORIGINAL_COMMAND"
    ∷ codes "DRYCC-BUILDER-GIT-RECEIVE_REPOSITORY"
    ∷ codes "DRYCC-BUILDER-GIT-RECEIVE_USERNAME"
    ∷ codes "DRYCC-BUILDER-GIT-RECEIVE_SSH_ORIGINAL_COMMAND"
    ∷ []

abbrev pub HasNone : List Bytes → List Bytes → Type 0
HasNone env names = All (λ (name : Bytes). getenv env name ≡ none) names

-- Where the server's own environment has no variable of these names: the hook's command gets the repository,
-- the user and the command of the push, and none of the variables with a prefix.
pub hook_env_push :
    (git_home : Bytes) (os_environ : List Bytes)
    (repo operation fingerprint username conndata : Bytes)
    → HasNone os_environ reserved
    → let env =
        hook_env git_home (push_env os_environ repo operation fingerprint username conndata) in
      (env (codes "REPOSITORY") ≡ some repo)
      × (env (codes "USERNAME") ≡ some username)
      × (env (codes "SSH_ORIGINAL_COMMAND")
          ≡ some (operation ++ (codes " '" ++ (repo ++ codes "'"))))
      × (env (codes "DRYCC-BUILDER-GIT-RECEIVE_REPOSITORY") ≡ none)
      × (env (codes "DRYCC-BUILDER-GIT-RECEIVE_USERNAME") ≡ none)
      × (env (codes "DRYCC-BUILDER-GIT-RECEIVE_SSH_ORIGINAL_COMMAND") ≡ none)
unfolding hook_env getenv eqb has_prefix trim_prefix
hook_env_push git_home os_environ repo operation fingerprint username conndata h =
    (ground arith, ground arith, ground arith, ground arith, ground arith, ground arith)
