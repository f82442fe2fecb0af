-- ===== src/Gitreceive/Secret/Examples.antt =====
-- A concrete store of secrets.
use builder.Base.{false, ◌⊎◌, ℕ, suc, codes, [], ◌∷◌, some, none, Result, ok, err, ◌≡◌, refl, ◌==◌}
use builder.Maps.{Map, lookup}
use builder.Text.Decimal.{decimal}
use builder.Text.Equality.{eqb}
use builder.K8s.Secrets.{FakeSecret, fake_secret, secrets_client}
use builder.Gitreceive.Secret.{Secret, SecretsClient, new_secret, create_app_env_config_secret}
use builder.Gitreceive.Secret.InMemory.{invalid, in_memory, in_memory-IsLawful}
use builder.Gitreceive.Secret.Upserted.{HasUpserted, HasFailed, create_app_env_config_secret_lem}

abbrev app_env : Map ℕ
app_env = (codes "PORT", 80) ∷ []

abbrev old : Map Secret
old =
    (
      codes "blog-env",
      record { name = codes "blog-env"; type = codes "Opaque"; immutable = false; data_map = [] },
    )
    ∷ []

create_app_env_config_secret_lem_example :
    HasUpserted decimal in_memory lookup in_memory-IsLawful (codes "blog-env") app_env old
    ⊎ HasFailed decimal in_memory lookup in_memory-IsLawful (codes "blog-env") app_env old
create_app_env_config_secret_lem_example =
    create_app_env_config_secret_lem decimal in_memory lookup in_memory-IsLawful (codes "blog-env")
      app_env old

-- The secret of that name is taken for another type, and cannot be replaced.
abbrev taken : Map Secret
taken =
    (
      codes "blog-env",
      record {
        name = codes "blog-env";
        type = codes "kubernetes.io/tls";
        immutable = false;
        data_map = [];
      },
    )
    ∷ []

type_kept :
    create_app_env_config_secret decimal in_memory (codes "blog-env") app_env taken
    ≡ (taken, some invalid)
unfolding create_app_env_config_secret in_memory lookup eqb new_secret
type_kept = refl

-- A fake that counts the calls of Create and of Update, and answers every Create with `answer`.
abbrev counting : Result ℕ Secret → FakeSecret (ℕ × ℕ) ℕ
counting answer = record {
  fn_get = λ name w. (w, err 404);
  fn_create = λ secret w. ((suc w.0, w.1), answer);
  fn_update = λ secret w. ((w.0, suc w.1), ok secret);
}

abbrev fake_client : Result ℕ Secret → SecretsClient (ℕ × ℕ) ℕ
unfolding secrets_client
fake_client answer = secrets_client {X = Unit {0}} (λ e. e == 409) (fake_secret (counting answer))

-- The secret is updated only where it is said to be there already, and another error is returned.
fake_calls :
    (create_app_env_config_secret decimal (fake_client (err 500)) (codes "test") app_env (0, 0)
      ≡ ((1, 0), some 500))
    × (create_app_env_config_secret decimal
          (fake_client (ok (record { name = []; type = []; immutable = false; data_map = [] })))
          (codes "test")
          app_env
          (0, 0)
        ≡ ((1, 0), none))
    × (create_app_env_config_secret decimal (fake_client (err 409)) (codes "test") app_env (0, 0)
        ≡ ((1, 1), none))
unfolding create_app_env_config_secret fake_client secrets_client fake_secret
fake_calls = (refl, refl, refl)
