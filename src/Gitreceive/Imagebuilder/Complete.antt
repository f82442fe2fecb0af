-- ===== src/Gitreceive/Imagebuilder/Complete.antt =====
-- When the environment is accepted, and which image is built.
use builder.Base.{
  if◌then◌else◌, ok, some, Bytes, codes, ◌≡◌, ◌≢◌, ◌↔◌, ◌⊎◌, refl, List, [], ◌∷◌, All, none, true,
  false, arith,
}
use builder.Maps.{lookup-insert, lookup, Map, get, has_key}
use builder.Text.Equality.{eqb_refl, eqb_iff}
use builder.Gitreceive.Imagebuilder.{
  eqb, insert, image_path, get_imagebuilder_env, required_env_names, first_missing, is_off_cluster,
  check_imagebuilder_required_env,
}

-- The four required variables are there, and the organization or the proxy that the location needs.
abbrev pub IsComplete : Map Bytes → Type 0
IsComplete env =
    All (λ (name : Bytes). has_key name env ≡ true) required_env_names
    × (((is_off_cluster env ≡ true) × (get (codes "DRYCC_REGISTRY_ORGANIZATION") env ≢ []))
        ⊎ ((is_off_cluster env ≡ false) × (get (codes "DRYCC_REGISTRY_PROXY_HOST") env ≢ [])))

first_missing_iff :
    (names : List Bytes) (env : Map Bytes)
    → (first_missing names env ≡ none) ↔ All (λ (name : Bytes). has_key name env ≡ true) names
unfolding first_missing
first_missing_iff [] env = (λ h. tt, λ h. refl)
first_missing_iff (name ∷ names) env = grind (arith, first_missing_iff names env)

-- The environment is accepted exactly when it is complete.
pub check_imagebuilder_required_env_lem :
    (env : Map Bytes) → (check_imagebuilder_required_env env ≡ none) ↔ IsComplete env
unfolding check_imagebuilder_required_env
check_imagebuilder_required_env_lem env = grind (
  arith,
  first_missing_iff required_env_names env,
  eqb_iff (get (codes "DRYCC_REGISTRY_ORGANIZATION") env) [],
  eqb_iff (get (codes "DRYCC_REGISTRY_PROXY_HOST") env) [],
)

-- Of a complete environment whose registry is in the cluster, the image is prefixed with the proxy's host
-- and the app's name; the organization becomes the app's name, and every other variable is kept.
pub get_imagebuilder_env-cluster :
    (image app : Bytes) (env : Map Bytes) (k : Bytes)
    → IsComplete env
    → is_off_cluster env ≡ false
    → (get_imagebuilder_env image app env ≡ (
      image_path (get (codes "DRYCC_REGISTRY_PROXY_HOST") env) app image,
      ok (insert (codes "DRYCC_REGISTRY_ORGANIZATION") app env),
    ))
      × (lookup k (insert (codes "DRYCC_REGISTRY_ORGANIZATION") app env)
          ≡ (if eqb (codes "DRYCC_REGISTRY_ORGANIZATION") k then some app else lookup k env))
unfolding get_imagebuilder_env get
get_imagebuilder_env-cluster image app env k h near = (
  ground (
    arith,
    check_imagebuilder_required_env_lem env,
    lookup-insert (codes "DRYCC_REGISTRY_ORGANIZATION") (codes "DRYCC_REGISTRY_ORGANIZATION") app
        env,
    eqb_refl (codes "DRYCC_REGISTRY_ORGANIZATION"),
  ),
  lookup-insert (codes "DRYCC_REGISTRY_ORGANIZATION") k app env,
)

-- Of a complete environment whose registry is off the cluster, the image is prefixed with the registry's
-- host and the organization, and the environment is kept.
pub get_imagebuilder_env-off_cluster :
    (image app : Bytes) (env : Map Bytes)
    → IsComplete env
    → is_off_cluster env ≡ true
    → get_imagebuilder_env image app env ≡ (
      image_path
          (get (codes "DRYCC_REGISTRY_HOST") env)
          (get (codes "DRYCC_REGISTRY_ORGANIZATION") env)
          image,
      ok env,
    )
unfolding get_imagebuilder_env
get_imagebuilder_env-off_cluster image app env h off =
    ground (arith, check_imagebuilder_required_env_lem env)
