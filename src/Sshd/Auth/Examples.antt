-- ===== src/Sshd/Auth/Examples.antt =====
-- A concrete key.
use builder.Base.{ℕ, Bytes, codes, ◌==◌, Option, some, Bool, [], ◌∷◌}
use builder.Controller.{Client}
use builder.Sshd.Auth.{UserInfo}

abbrev alice : UserInfo
alice = record { username = codes "alice"; apps = codes "blog" ∷ [] }

abbrev a_client : Client ℕ
a_client = record { sdk = 1; user_agent = []; service_key = [] }

abbrev is_406 : ℕ → Bool
is_406 e = e == 406

-- The controller is of another version.
abbrev user_from_key : Client ℕ → Bytes → UserInfo × Option ℕ
user_from_key c fp = (alice, some 406)
