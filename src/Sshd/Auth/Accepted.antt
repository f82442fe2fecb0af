-- ===== src/Sshd/Auth/Accepted.antt =====
-- Which keys are accepted.
use builder.Base.{arith, [], refl, Bytes, ◌≡◌, ◌↔◌, Option, some, none, Bool, true, ok}
use builder.Controller.{Client, check_api_compat}
use builder.Maps.{Map}
use builder.Sshd.Auth.{UserInfo, permissions, auth_key}

-- The controller has answered: with no error, or with one that says that versions do not match.
abbrev pub IsAnswered : {E : Type 0} → (E → Bool) → Option E → Type 0
IsAnswered is_api_mismatch none = Unit
IsAnswered is_api_mismatch (some e) = is_api_mismatch e ≡ true

module _ {E : Type 0} (is_api_mismatch : E → Bool) where
  answered :
      (answer : UserInfo × Option E) (fp : Bytes) (extensions : Map Bytes)
      → (auth_key {C = Unit {0}} is_api_mismatch
            (λ c k. answer)
            (record { sdk = tt; user_agent = []; service_key = [] }, none)
            fp
          ≡ ok extensions)
        ↔ (IsAnswered is_api_mismatch answer.1 × (extensions ≡ permissions answer.0 fp))
  unfolding auth_key check_api_compat
  answered (user, none) fp extensions = grind arith
  answered (user, some e) fp extensions = grind arith

module _ {C E : Type 0} (is_api_mismatch : E → Bool) where
  -- A key is accepted exactly when there is a client and the controller has answered it with a user; and
  -- what is granted are the permissions of that user.
  pub auth_key_lem :
      (user_from_key : Client C → Bytes → UserInfo × Option E) (client : Client C)
      (failure : Option E) (fp : Bytes) (extensions : Map Bytes)
      → (auth_key is_api_mismatch user_from_key (client, failure) fp ≡ ok extensions) ↔ (
          (failure ≡ none)
          × IsAnswered is_api_mismatch (user_from_key client fp).1
          × (extensions ≡ permissions (user_from_key client fp).0 fp))
  unfolding auth_key check_api_compat
  auth_key_lem user_from_key client (some e) fp extensions = grind arith
  auth_key_lem user_from_key client none fp extensions =
      let (forth, back) = answered is_api_mismatch (user_from_key client fp) fp extensions in
      ((λ h. (refl, (forth h).0, (forth h).1)), λ h. back (h.1, h.2))
