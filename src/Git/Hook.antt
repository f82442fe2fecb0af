-- ===== src/Git/Hook.antt =====
-- The environment of the pre-receive hook of pkg/git/git.go: what `Receive` gives to git-shell, which git
-- hands on, and what the script makes of it for `boot git-receive`.
pub mod Passed
use builder.Base.{Bytes, codes, List, [], ◌∷◌, ◌++◌, Option, some, none, if◌then◌else◌}
use builder.Text.{has_prefix, trim_prefix}
use builder.Text.Equality.{eqb}

-- A variable of an environment, whose last entry `name=value` counts (os/exec).
unfoldable pub getenv : List Bytes → Bytes → Option Bytes
getenv [] name = none
getenv (entry ∷ env) name = elim (getenv env name) [
  | some value ↦ some value
  | none ↦
      if has_prefix entry (name ++ codes "=")
      then some (trim_prefix entry (name ++ codes "="))
      else none
]

-- `"$name"` in the script: a variable that is not set is empty.
expand : List Bytes → Bytes → Bytes
unfolding getenv
expand env name = elim (getenv env name) [ some value ↦ value | none ↦ [] ]

-- The variables that the script sets, and those that it sets them to.
abbrev pub assignments : List (Bytes × Bytes)
assignments =
    (codes "SSH_CONNECTION", codes "SSH_CONNECTION")
    ∷ (codes "SSH_ORIGINAL_COMMAND", codes "SSH_ORIGINAL_COMMAND")
    ∷ (codes "REPOSITORY", codes "RECEIVE_REPO")
    ∷ (codes "USERNAME", codes "RECEIVE_USER")
    ∷ (codes "FINGERPRINT", codes "RECEIVE_FINGERPRINT")
    ∷ (codes "POD_NAMESPACE", codes "POD_NAMESPACE")
    ∷ []

assigned : List Bytes → List (Bytes × Bytes) → Bytes → Option Bytes
unfolding expand
assigned env [] name = getenv env name
assigned env ((target, source) ∷ rest) name =
    let others = assigned env rest name in
    if eqb target name then some (expand env source) else others

-- The environment of `boot git-receive` in the script, for a home of git that bash takes as it is written.
unfoldable pub hook_env : Bytes → List Bytes → Bytes → Option Bytes
unfolding assigned
hook_env git_home env name =
    if eqb (codes "GIT_HOME") name then some git_home else assigned env assignments name
