-- ===== src/Controller/Connected.antt =====
-- When there is a client, and what it holds.
use builder.Base.{arith, Bytes, codes, ◌≡◌, ◌++◌, Option, some, none, Result, ok, err}
use builder.Conf.{service_key_location, get_service_key}
use builder.Controller.{Client, new}
use builder.Text.Trim.{trim_suffix-append}

module _ {C E : Type 0} (drycc_new : Bytes → Client C × Option E)
    (read_file : Bytes → Result E Bytes) (url : Bytes) (client : Client C) where
  -- Where the SDK gives a client and the file of the key holds the key and a newline, the client is the
  -- SDK's, with the builder's user agent and the key without the newline, and there is no error.
  pub new_lem :
      (key : Bytes)
      → drycc_new url ≡ (client, none)
      → read_file service_key_location ≡ ok (key ++ codes "\n")
      → new drycc_new read_file url
        ≡ (record client { user_agent = codes "drycc-builder"; service_key = key }, none)
  unfolding new get_service_key
  new_lem key connected found =
      ground (arith, connected, found, trim_suffix-append key (codes "\n"))

  -- Where the SDK gives a client but the file of the key cannot be read, the error is that of the read,
  -- and the client has the builder's user agent and the key that the SDK gave it.
  pub new-unreadable :
      (e : E)
      → drycc_new url ≡ (client, none)
      → read_file service_key_location ≡ err e
      → new drycc_new read_file url ≡ (record client { user_agent = codes "drycc-builder" }, some e)
  unfolding new get_service_key
  new-unreadable e connected missing = ground (arith, connected, missing)
