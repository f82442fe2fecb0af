-- ===== src/K8s.antt =====
-- pkg/k8s/utils.go: pull policies, and the security context of a container.
pub mod Policies
pub mod Client
pub mod Watch
pub mod Secrets
use builder.Base.{Bytes, codes, Bool, not, [], ◌∷◌, Result, ok, err, if◌then◌else◌}
use builder.Maps.{Map, has_key}

abbrev pub valid_pull_policies : Map (Unit {0})
valid_pull_policies = (codes "Always", tt) ∷ (codes "IfNotPresent", tt) ∷ (codes "Never", tt) ∷ []

-- ErrInvalidPullPolicy
pub record InvalidPullPolicy : Type 0 where
  pub str : Bytes

unfoldable pub pull_policy_from_string : Bytes → Result InvalidPullPolicy Bytes
pull_policy_from_string pp_str =
    if not (has_key pp_str valid_pull_policies) then err (record { str = pp_str }) else ok pp_str

pub record SecurityContext : Type 0 where
  pub privileged : Bool

unfoldable pub security_context_from_privileged : Bool → SecurityContext
security_context_from_privileged privileged = record { privileged = privileged }
