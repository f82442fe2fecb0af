-- ===== src/Conf/Region.antt =====
-- The region that the storage parameters name.
use builder.Base.{
  Bool-cases, inr, inl, Bytes, codes, ◌≡◌, ◌≢◌, ◌++◌, ◌∷◌, [], Option, some, Bool, false, arith,
}
use builder.Conf.{get_storage_params, storage_region, first_part}
use builder.Maps.{lookup, insert}
use builder.Text.Equality.{eqb, eqb_nil}
use builder.Text.Search.{Lacks}
use builder.Text.Split.{split-part}

module _ (hostname : Bytes → Option Bytes) (is_ip : Bytes → Bool) where
  storage_region-name :
      (endpoint label domain : Bytes)
      → hostname endpoint ≡ some (label ++ b'.' ∷ domain)
      → is_ip (label ++ b'.' ∷ domain) ≡ false
      → Lacks b'.' label
      → storage_region hostname is_ip endpoint ≡ label
  unfolding storage_region first_part
  storage_region-name endpoint label domain h name lacks = ground (
    arith,
    h,
    name,
    split-part label domain b'.' lacks,
    eqb_nil (label ++ b'.' ∷ domain) (not_empty label),
  )
    where
      not_empty : (l : Bytes) → l ++ b'.' ∷ domain ≢ []
      not_empty [] = ground arith
      not_empty (c ∷ l) = ground arith

  -- Where the endpoint's host is a name with a dot and not an address, the region is the part of it before
  -- its first dot.
  pub get_storage_params-region :
      (env : Bytes → Bytes) (label domain : Bytes)
      → hostname (env (codes "DRYCC_STORAGE_ENDPOINT")) ≡ some (label ++ b'.' ∷ domain)
      → is_ip (label ++ b'.' ∷ domain) ≡ false
      → Lacks b'.' label
      → lookup (codes "region") (get_storage_params hostname is_ip env) ≡ some label
  unfolding get_storage_params lookup insert eqb
  get_storage_params-region env label domain h name lacks =
      elim (Bool-cases (eqb (env (codes "DRYCC_STORAGE_PATH_STYLE")) (codes "true"))) [
        | inl styled ↦
            rw (styled, storage_region-name _ label domain h name lacks, get_storage_params)
        | inr plain ↦
            rw (plain, storage_region-name _ label domain h name lacks, get_storage_params)
      ]
