-- ===== src/Controller.antt =====
-- pkg/controller/utils.go: the client of the controller's SDK. The SDK is not this program's: its client
-- type, its constructor, its errors and the test for `drycc.ErrAPIMismatch` are parameters.
pub mod Connected
use builder.Base.{if◌then◌else◌, codes, Bytes, some, none, Option, Bool, Result, ok, err}
use builder.Conf.{get_service_key}

-- `client.UserAgent` and `client.ServiceKey`, beside what the SDK keeps.
pub record Client (C : Type 0) : Type 0 where
  pub sdk : C
  pub user_agent : Bytes
  pub service_key : Bytes

-- `New`: `drycc_new` is `drycc.New(true, url, "")`, and `key_file` is what reading the key's file gives.
-- The error comes with the client, as it is so far.
pub new :
    {C E : Type 0}
    → (Bytes → Client C × Option E)
    → (Bytes → Result E Bytes)
    → Bytes
    → Client C × Option E
new drycc_new read_file url =
    let (client, failure) = drycc_new url in
    let named = record client { user_agent = codes "drycc-builder" } in
    elim failure [
      | some e ↦ (client, some e)
      | none ↦ elim (get_service_key read_file) [
        | err e ↦ (named, some e)
        | ok key ↦ (record named { service_key = key }, none)
      ]
    ]

-- `CheckAPICompat`: a mismatch of versions is only logged.
unfoldable pub check_api_compat : {E : Type 0} → (E → Bool) → Option E → Option E
check_api_compat is_api_mismatch none = none
check_api_compat is_api_mismatch (some e) = if is_api_mismatch e then none else some e
