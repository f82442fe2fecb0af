-- ===== src/Healthsrv/Server.antt =====
-- pkg/healthsrv/server.go. `http.ListenAndServe` is an argument: the error it ends with.
use builder.Base.{Bytes, codes, Option, some, none, [], ◌∷◌, ◌++◌}
use builder.Text.Decimal.{print_int}
use builder.Controller.{Client}
use builder.Maps.{Map}
use builder.Sshd.Config as SshConfig

-- What a path is handled with; the client is that of the controller.
pub data Route (C : Type 0) : Type 0 where
  health_z : Route C
  readiness : Client C → Route C

-- `Start`, where `client` is what `controller.New` gives.
unfoldable pub start :
    {C E : Type 0}
    → Client C × Option E
    → (Bytes → Map (Route C) → Option E)
    → SshConfig.Config
    → Option E
start (client, some e) listen_and_serve cnf = some e
start (client, none) listen_and_serve cnf =
    listen_and_serve (codes ":" ++ print_int cnf.health_srv_port)
      ((codes "/healthz", health_z) ∷ (codes "/readiness", readiness client) ∷ [])
