-- ===== src/Sshd/Auth.antt =====
-- `AuthKey` of pkg/sshd/server.go. The client of the controller and `hooks.UserFromKey` are parameters.
pub mod Accepted
mod Examples
use builder.Base.{err, ok, Result, codes, Bytes, ◌∷◌, [], List, some, none, Option, Bool}
use builder.Controller.{Client, check_api_compat}
use builder.Text.{join}
use builder.Maps.{Map}

pub record UserInfo : Type 0 where
  pub username : Bytes
  pub apps : List Bytes

-- The extensions of the permissions that are returned.
unfoldable pub permissions : UserInfo → Bytes → Map Bytes
permissions user_info fp =
    (codes "user", user_info.username)
    ∷ (codes "fingerprint", fp)
    ∷ (codes "apps", join user_info.apps (codes ", "))
    ∷ []

-- `client` is what `controller.New` returns, and `fp` the fingerprint of the key.
unfoldable pub auth_key :
    {C E : Type 0}
    → (E → Bool)
    → (Client C → Bytes → UserInfo × Option E)
    → Client C × Option E
    → Bytes
    → Result E (Map Bytes)
unfolding permissions check_api_compat
auth_key is_api_mismatch user_from_key (client, some e) fp = err e
auth_key is_api_mismatch user_from_key (client, none) fp =
    let (user_info, failure) = user_from_key client fp in
    elim (check_api_compat is_api_mismatch failure) [
      | some e ↦ err e
      | none ↦ ok (permissions user_info fp)
    ]
