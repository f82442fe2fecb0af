-- ===== src/Gitreceive/Imagebuilder.antt =====
-- pkg/gitreceive/imagebuilder.go: the environment of the image builder, and the name of the image.
pub mod Complete
use builder.Base.{
  not, Bool, Bytes, codes, List, [], ◌∷◌, ◌++◌, Option, some, none, Result, ok, err, if◌then◌else◌,
}
use builder.Maps.{Map, get, has_key, insert}
use builder.Text.Equality.{eqb}

abbrev pub required_env_names : List Bytes
required_env_names =
    codes "DRYCC_STORAGE_BUCKET"
    ∷ codes "DRYCC_STORAGE_ENDPOINT"
    ∷ codes "DRYCC_STORAGE_PATH_STYLE"
    ∷ codes "DRYCC_REGISTRY_HOST"
    ∷ []

-- "the environment variable %s is required"
pub record EnvRequired : Type 0 where
  pub env_name : Bytes

-- The loop over the names.
first_missing : List Bytes → Map Bytes → Option EnvRequired
first_missing [] env = none
first_missing (name ∷ names) env =
    let rest = first_missing names env in
    if not (has_key name env) then some (record { env_name = name }) else rest

abbrev pub is_off_cluster : Map Bytes → Bool
is_off_cluster env = eqb (get (codes "DRYCC_REGISTRY_LOCATION") env) (codes "off-cluster")

-- `checkImagebuilderRequiredEnv`
unfoldable pub check_imagebuilder_required_env : Map Bytes → Option EnvRequired
unfolding first_missing
check_imagebuilder_required_env env = elim (first_missing required_env_names env) [
  | some e ↦ some e
  | none ↦
      if is_off_cluster env
      then (if eqb (get (codes "DRYCC_REGISTRY_ORGANIZATION") env) []
          then some (record { env_name = codes "DRYCC_REGISTRY_ORGANIZATION" })
          else none)
      else if eqb (get (codes "DRYCC_REGISTRY_PROXY_HOST") env) []
      then some (record { env_name = codes "DRYCC_REGISTRY_PROXY_HOST" })
      else none
]

-- fmt.Sprintf("%s/%s/%s", host, organization, image)
abbrev pub image_path : Bytes → Bytes → Bytes → Bytes
image_path host organization image = host ++ (codes "/" ++ (organization ++ (codes "/" ++ image)))

-- `getImagebuilderEnv`, where `env` is what `env.Environ` gives and `app` is `config.App()`: what the
-- image becomes, and the environment.
unfoldable pub get_imagebuilder_env :
    Bytes → Bytes → Map Bytes → Bytes × Result EnvRequired (Map Bytes)
unfolding check_imagebuilder_required_env
get_imagebuilder_env image app env = elim (check_imagebuilder_required_env env) [
  | some e ↦ (image, err e)
  | none ↦
      if is_off_cluster env
      then (
        image_path (get (codes "DRYCC_REGISTRY_HOST") env)
            (get (codes "DRYCC_REGISTRY_ORGANIZATION") env) image,
        ok env,
      )
      else (
        image_path (get (codes "DRYCC_REGISTRY_PROXY_HOST") env)
            (get (codes "DRYCC_REGISTRY_ORGANIZATION")
              (insert (codes "DRYCC_REGISTRY_ORGANIZATION") app env))
            image,
        ok (insert (codes "DRYCC_REGISTRY_ORGANIZATION") app env),
      )
]
