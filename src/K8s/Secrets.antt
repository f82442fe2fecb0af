-- ===== src/K8s/Secrets.antt =====
-- pkg/k8s/secrets.go: the fakes that stand for the client of the cluster's secrets in unit tests. A fake's
-- function may change what it closes over, a world `W`; it is set, as one that is nil panics when called.
-- The contexts and the options of the calls are left out, since the fakes take no notice of them.
use builder.Base.{Bytes, Bool, List, [], Option, none, Result, ok, err}
use builder.Gitreceive.Secret.{Secret, SecretsClient}

-- typedcorev1.SecretInterface; `X` stands for watch.Interface.
pub record SecretInterface (W E X : Type 0) : Type 0 where
  pub get : Bytes → W → W × Result E Secret
  pub delete : Bytes → W → W × Option E
  pub create : Secret → W → W × Result E Secret
  pub update : Secret → W → W × Result E Secret
  pub list : W → W × Result E (List Secret)
  pub watch : W → W × Result E (Option X)
  pub delete_collection : W → W × Option E
  pub patch : (name body : Bytes) → W → W × Result E Secret
  pub apply : Secret → W → W × Result E Secret

pub record FakeSecret (W E : Type 0) : Type 0 where
  pub fn_get : Bytes → W → W × Result E Secret
  pub fn_create : Secret → W → W × Result E Secret
  pub fn_update : Secret → W → W × Result E Secret

-- `&corev1.Secret{}`
abbrev empty_secret : Secret
empty_secret = record { name = []; type = []; immutable = Bool.false; data_map = [] }

-- `FakeSecret` as a `SecretInterface`
unfoldable pub fake_secret : {W E X : Type 0} → FakeSecret W E → SecretInterface W E X
fake_secret f = record {
  get = f.fn_get;
  delete = λ name w. (w, none);
  create = f.fn_create;
  update = f.fn_update;
  list = λ w. (w, ok []);
  watch = λ w. (w, ok none);
  delete_collection = λ w. (w, none);
  patch = λ name body w. (w, ok empty_secret);
  apply = λ secret w. (w, ok empty_secret);
}

pub record FakeSecretsGetter (W E X : Type 0) : Type 0 where
  pub fn : Bytes → SecretInterface W E X

-- `FakeSecretsGetter.Secrets`
unfoldable pub secrets : {W E X : Type 0} → FakeSecretsGetter W E X → Bytes → SecretInterface W E X
secrets f namespace = f.fn namespace

-- The error of a result, if there is one: the callers of `Create` and `Update` drop the secret.
abbrev failure : {A E W : Type 0} → W × Result E A → W × Option E
failure (w, ok a) = (w, none)
failure (w, err e) = (w, Option.some e)

-- The methods that `createAppEnvConfigSecret` calls.
unfoldable pub secrets_client :
    {W E X : Type 0} → (E → Bool) → SecretInterface W E X → SecretsClient W E
secrets_client is_already_exists s = record {
  create = λ secret w. failure (s.create secret w);
  update = λ secret w. failure (s.update secret w);
  is_already_exists = is_already_exists;
}
