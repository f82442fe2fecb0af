-- ===== src/Conf.antt =====
-- pkg/conf/config.go: the key for the controller, and the parameters of the object storage.
pub mod Region
use builder.Base.{
  if◌then◌else◌, ◌∷◌, [], some, none, Option, ◌&&◌, not, Bool, ok, Result, codes, Bytes,
}
use builder.Base.{◌>>=◌}
use builder.Text.{trim_suffix, split}
use builder.Text.Equality.{eqb}
use builder.Maps.{Map, insert}

abbrev pub service_key_location : Bytes
service_key_location = codes "/var/run/secrets/drycc/controller/service-key"

-- `GetServiceKey`; the error's text, which wraps that of the read, is not modelled.
unfoldable pub get_service_key : {E : Type 0} → (Bytes → Result E Bytes) → Result E Bytes
get_service_key read_file = do
  service_key_bytes ← read_file service_key_location
  ok (trim_suffix service_key_bytes (codes "\n"))

-- `strings.Split(host, ".")[0]`; there is always a part.
first_part : Bytes → Bytes
first_part host = elim (split host b'.') [ [] ↦ [] | part ∷ parts ↦ part ]

-- The region, where `hostname` is the host of the URL that a text is, or `none` where it is no URL, and
-- `is_ip` says whether `net.ParseIP` succeeds.
storage_region : (Bytes → Option Bytes) → (Bytes → Bool) → Bytes → Bytes
unfolding first_part
storage_region hostname is_ip endpoint = elim (hostname endpoint) [
  | none ↦ codes "us-east-1"
  | some host ↦ if not (eqb host []) && not (is_ip host) then first_part host else codes "us-east-1"
]

-- `GetStorageParams`, where `env` is `env.Get`; its error is always nil.
unfoldable pub get_storage_params :
    (Bytes → Option Bytes) → (Bytes → Bool) → (Bytes → Bytes) → Map Bytes
unfolding storage_region
get_storage_params hostname is_ip env =
    let endpoint = env (codes "DRYCC_STORAGE_ENDPOINT") in
    let params = insert (codes "bucket") (env (codes "DRYCC_STORAGE_BUCKET")) (
      insert (codes "secretkey") (env (codes "DRYCC_STORAGE_SECRETKEY")) (
        insert (codes "accesskey") (env (codes "DRYCC_STORAGE_ACCESSKEY")) (
          insert (codes "region") (storage_region hostname is_ip endpoint)
            (insert (codes "regionendpoint") endpoint [])))) in
    if eqb (env (codes "DRYCC_STORAGE_PATH_STYLE")) (codes "true")
    then insert (codes "forcepathstyle") (codes "true") params
    else params
