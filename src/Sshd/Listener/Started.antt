-- ===== src/Sshd/Listener/Started.antt =====
-- What the server needs to start.
use builder.Base.{Bytes, codes, [], ◌∷◌, Result, ok, err, ◌>>=◌, ◌≡◌, arith}
use builder.Maps.{Map}
use builder.Sshd.Listener.{host_key_path, cipher_names, add_host_keys, configure}

-- The host key of a type.
abbrev pub host_key :
    {K E : Type 0} → (Bytes → Result E Bytes) → (Bytes → Result E K) → Bytes → Result E K
host_key read_file parse_private_key t = do key ← read_file (host_key_path t); parse_private_key key

module _ {K P F E : Type 0} (read_file : Bytes → Result E Bytes)
    (parse_private_key : Bytes → Result E K) (auth_key : P → Result F (Map Bytes)) where
  pub configure_ok :
      (rsa ecdsa : K)
      → host_key read_file parse_private_key (codes "rsa") ≡ ok rsa
      → host_key read_file parse_private_key (codes "ecdsa") ≡ ok ecdsa
      → configure read_file parse_private_key auth_key
        ≡ ok (record {
          public_key_callback = auth_key;
          host_keys = rsa ∷ ecdsa ∷ [];
          ciphers = cipher_names;
        })
  unfolding configure add_host_keys
  configure_ok rsa ecdsa r e = ground arith

  pub no_rsa :
      (e : E)
      → host_key read_file parse_private_key (codes "rsa") ≡ err e
      → configure read_file parse_private_key auth_key ≡ err e
  unfolding configure add_host_keys
  no_rsa e r = ground arith

  pub no_ecdsa :
      (rsa : K) (e : E)
      → host_key read_file parse_private_key (codes "rsa") ≡ ok rsa
      → host_key read_file parse_private_key (codes "ecdsa") ≡ err e
      → configure read_file parse_private_key auth_key ≡ err e
  unfolding configure add_host_keys
  no_ecdsa rsa e r s = ground arith
