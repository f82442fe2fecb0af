-- ===== src/Gitreceive/Secret.antt =====
-- `createAppEnvConfigSecret` of pkg/gitreceive/k8s_util.go, over the client of the cluster's secrets.
pub mod Upserted
pub mod InMemory
mod Examples
use builder.Base.{codes, Bytes, Bool, List, [], ◌∷◌, Option, some, none, if◌then◌else◌}
use builder.Maps.{Map, insert}

-- A secret; `immutable` is false where the cluster's field is not set.
pub record Secret : Type 0 where
  pub name : Bytes
  pub type : Bytes
  pub immutable : Bool
  pub data_map : Map Bytes

-- corev1.SecretTypeOpaque
abbrev pub secret_type_opaque : Bytes
secret_type_opaque = codes "Opaque"

-- The methods of typedcorev1.SecretInterface that are called, in a world `W` that they change, and
-- `apierrors.IsAlreadyExists`.
pub record SecretsClient (W E : Type 0) : Type 0 where
  pub create : Secret → W → W × Option E
  pub update : Secret → W → W × Option E
  pub is_already_exists : E → Bool

-- The loop over the environment; `sprint` is `fmt.Sprintf("%v", v)`. The keys of a map differ, so the
-- order in which they are visited does not matter.
secret_data : {V : Type 0} → (V → Bytes) → Map V → Map Bytes
secret_data sprint [] = []
secret_data sprint ((k, v) ∷ env) = insert k (sprint v) (secret_data sprint env)

unfoldable pub new_secret : {V : Type 0} → (V → Bytes) → Bytes → Map V → Secret
unfolding secret_data
new_secret sprint secret_name env = record {
  name = secret_name;
  type = secret_type_opaque;
  immutable = Bool.false;
  data_map = secret_data sprint env;
}

unfoldable pub create_app_env_config_secret :
    {V W E : Type 0} → (V → Bytes) → SecretsClient W E → Bytes → Map V → W → W × Option E
create_app_env_config_secret sprint secrets_client secret_name env w =
    let secret = new_secret sprint secret_name env in
    let (w', failure) = secrets_client.create secret w in
    elim failure [
      | none ↦ (w', none)
      | some e ↦
          if secrets_client.is_already_exists e
          then secrets_client.update secret w'
          else (w', some e)
    ]
