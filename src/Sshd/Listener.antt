-- ===== src/Sshd/Listener.antt =====
-- `Configure`, `Serve` and `listen` of pkg/sshd/server.go: the host keys, and the server from its listener
-- to the error that ends it. The files, the parser of private keys, and what `net.Listen` and `Accept` give
-- are arguments of the model.
pub mod Started
use builder.Base.{
  Bytes, codes, List, [], ◌∷◌, ◌++◌, map, Option, some, none, Result, ok, err, ◌>>=◌,
}
use builder.Maps.{Map}
use builder.Sshd.Circuit.{Circuit, close}
use builder.Sshd.Server.{Server}

-- ssh.ServerConfig; `K` is the type of a private key, and `P` that of a public key.
pub record ServerConfig (K P F : Type 0) : Type 0 where
  pub public_key_callback : P → Result F (Map Bytes)
  pub host_keys : List K
  pub ciphers : List Bytes

abbrev pub host_key_types : List Bytes
host_key_types = codes "rsa" ∷ codes "ecdsa" ∷ []

abbrev pub host_key_path : Bytes → Bytes
host_key_path t = codes "/var/run/secrets/drycc/builder/ssh/ssh-host-" ++ (t ++ codes "-key")

abbrev pub cipher_names : List Bytes
cipher_names =
    codes "aes128-ctr"
    ∷ codes "aes192-ctr"
    ∷ codes "aes256-ctr"
    ∷ codes "aes128-gcm@openssh.com"
    ∷ []

module _ {K P F E : Type 0} (read_file : Bytes → Result E Bytes)
    (parse_private_key : Bytes → Result E K) where
  -- The loop over the types of host keys.
  pub add_host_keys : List Bytes → ServerConfig K P F → Result E (ServerConfig K P F)
  add_host_keys [] cfg = ok cfg
  add_host_keys (t ∷ types) cfg = do
    key ← read_file (host_key_path t)
    hk ← parse_private_key key
    add_host_keys types (record cfg { host_keys = cfg.host_keys ++ hk ∷ [] })

  -- `Configure`, where `auth_key` is `AuthKey` with the configuration.
  unfoldable pub configure : (P → Result F (Map Bytes)) → Result E (ServerConfig K P F)
  unfolding add_host_keys
  configure auth_key = do
    cfg ←
        add_host_keys host_key_types
          (record { public_key_callback = auth_key; host_keys = []; ciphers = [] })
    ok (record cfg { ciphers = cipher_names })

-- What is done to the outside: the connections are handled in goroutines of their own.
pub data ServerEffect (C : Type 0) : Type 0 where
  -- serverCircuit.Close
  circuit_closed : ServerEffect C
  -- go s.handleConn
  handling : Server → C → ServerEffect C
  -- the deferred l.Close
  listener_closed : ServerEffect C

-- What `Accept` gives until it fails, and that failure.
pub record Accepts (C E : Type 0) : Type 0 where
  pub conns : List C
  pub failure : E

module _ {C E : Type 0} where
  unfoldable pub listen : Server → Accepts C E → List (ServerEffect C) × E
  listen s accepts = (map (handling s) accepts.conns ++ listener_closed ∷ [], accepts.failure)

  -- `Serve`, where `listener` is what `net.Listen` gives. What `listen` returns is not looked at.
  unfoldable pub serve :
      Circuit → Bytes → Result E (Accepts C E) → Bytes → Circuit × List (ServerEffect C) × Option E
  unfolding listen
  serve circuit git_home_dir (err e) receivetype = (circuit, [], some e)
  serve circuit git_home_dir (ok accepts) receivetype = (
    (close circuit).0,
    circuit_closed
        ∷ (listen (record { git_home = git_home_dir; receivetype = receivetype }) accepts).0,
    none,
  )
