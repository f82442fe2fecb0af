-- ===== src/Sshd/Connection/Examples.antt =====
-- A concrete connection.
use builder.Sshd.Auth.{UserInfo, auth_key}
use builder.Controller.{Client}
use builder.Sshd.Connection.Authenticated.{auth_key-AnswersAs, AnswersAs}
use builder.Sshd.Server.{Server, ReceiveCall}
use builder.Base.{
  All, drop, ◌==◌, Option, Bool, ℕ, Bytes, codes, [], ◌∷◌, none, some, ok, err, ◌≡◌, refl,
  if◌then◌else◌,
}
use builder.Maps.{Map}
use builder.Text.Equality.{eqb}
use builder.Sshd.Connection.{
  NewChannel, answering, rejected, conn_closed, handle_conn, ssh_connection,
}
use builder.Sshd.Connection.Opened.{
  Session, session_channel, shaken, conn_with, IsOther, IsRefused, handle_conn_lem,
}

abbrev split_host_port : Bytes → Bytes × Bytes
split_host_port address = (address, codes "22")

abbrev permissions : Map Bytes
permissions = (codes "user", codes "alice") ∷ []

abbrev session : Session
session = record { requests = record { type = codes "env"; payload = [] } ∷ [] }

-- A port to be forwarded.
abbrev forwarding : NewChannel ℕ
forwarding = record {
  channel_type = codes "direct-tcpip";
  accept = λ decided. if decided then err 1 else ok [];
}

forwarding-IsOther : IsOther forwarding 1
unfolding eqb
forwarding-IsOther = (refl, refl)

-- A session for which the client is gone before it is accepted.
abbrev gone : NewChannel ℕ
gone = record { channel_type = codes "session"; accept = λ decided. err 3 }

gone-IsRefused : IsRefused gone 3
unfolding eqb
gone-IsRefused = (refl, refl)

handle_conn_lem_example :
    (handle_conn {E = ℕ} split_host_port
        (conn_with split_host_port (codes "1.2.3.4") (codes "5.6.7.8") (err 2))
      ≡ (conn_closed ∷ [], none))
    × (handle_conn split_host_port (
          conn_with split_host_port
            (codes "1.2.3.4")
            (codes "5.6.7.8")
            (ok (shaken permissions (session_channel {E = ℕ} session ∷ []))))
        ≡ (
          answering session.requests (codes "1.2.3.4 22 5.6.7.8 22") permissions
              ∷ conn_closed
              ∷ conn_closed
              ∷ [],
          none,
        ))
    × (handle_conn split_host_port (
          conn_with split_host_port (codes "1.2.3.4") (codes "5.6.7.8") (
            ok
              (shaken permissions (session_channel session ∷ gone ∷ session_channel session ∷ []))))
        ≡ (
          answering session.requests (codes "1.2.3.4 22 5.6.7.8 22") permissions ∷ conn_closed ∷ [],
          some 3,
        ))
    × (handle_conn split_host_port (
          conn_with split_host_port (codes "1.2.3.4") (codes "5.6.7.8") (
            ok (
              shaken permissions
                (session_channel session ∷ forwarding ∷ session_channel session ∷ []))))
        ≡ (
          answering session.requests (codes "1.2.3.4 22 5.6.7.8 22") permissions
              ∷ rejected
              ∷ conn_closed
              ∷ [],
          some 1,
        ))
unfolding ssh_connection
handle_conn_lem_example =
    handle_conn_lem split_host_port (codes "1.2.3.4") (codes "5.6.7.8") 2 1 3 permissions
      (session ∷ []) forwarding gone (session_channel session ∷ []) forwarding-IsOther
      gone-IsRefused

abbrev server : Server
server = record { git_home = codes "/workspace"; receivetype = codes "gitreceive" }

abbrev alice : UserInfo
alice = record { username = codes "alice"; apps = codes "blog" ∷ [] }

abbrev a_client : Client ℕ
a_client = record { sdk = 1; user_agent = []; service_key = [] }

abbrev user_from_key : Client ℕ → Bytes → UserInfo × Option ℕ
user_from_key c fp = (alice, none)

abbrev is_406 : ℕ → Bool
is_406 e = e == 406

abbrev git_receive : ReceiveCall → Option ℕ
git_receive c = none

abbrev push_session : NewChannel ℕ
push_session = record {
  channel_type = codes "session";
  accept = λ decided. ok (
      record {
        type = codes "exec";
        payload = 0 ∷ 0 ∷ 0 ∷ 28 ∷ codes "git-receive-pack '/blog.git'";
      }
      ∷ []);
}

alice-accepted :
    auth_key is_406 user_from_key (a_client, none) (codes "aa:bb")
    ≡ ok (builder.Sshd.Auth.permissions alice (codes "aa:bb"))
unfolding auth_key builder.Controller.check_api_compat
alice-accepted = refl

auth_key-AnswersAs_example :
    All
      (AnswersAs server (drop 4) git_receive alice (codes "aa:bb"))
      (handle_conn split_host_port (
        conn_with split_host_port (codes "1.2.3.4") (codes "5.6.7.8") (
          ok (shaken (builder.Sshd.Auth.permissions alice (codes "aa:bb")) (push_session ∷ []))))).0
auth_key-AnswersAs_example =
    auth_key-AnswersAs server (drop 4) git_receive split_host_port is_406 user_from_key a_client
      none (codes "aa:bb") (builder.Sshd.Auth.permissions alice (codes "aa:bb")) (push_session ∷ [])
      (codes "1.2.3.4") (codes "5.6.7.8") alice-accepted
