-- ===== src/K8s/Policies.antt =====
-- Which pull policies are accepted.
use builder.Base.{Bytes, codes, ◌≡◌, ◌↔◌, ◌⊎◌, ok, arith}
use builder.Maps.{has_key, lookup}
use builder.Text.Equality.{eqb_iff}
use builder.K8s.{pull_policy_from_string}

-- A text is accepted exactly when it is Always, IfNotPresent or Never.
pub pull_policy_from_string_lem :
    (s : Bytes)
    → (pull_policy_from_string s ≡ ok s)
      ↔ ((s ≡ codes "Always") ⊎ (s ≡ codes "IfNotPresent") ⊎ (s ≡ codes "Never"))
unfolding pull_policy_from_string has_key lookup
pull_policy_from_string_lem s =
    grind (
      arith,
      eqb_iff (codes "Always") s,
      eqb_iff (codes "IfNotPresent") s,
      eqb_iff (codes "Never") s,
    )
