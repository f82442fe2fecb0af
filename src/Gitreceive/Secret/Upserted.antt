-- ===== src/Gitreceive/Secret/Upserted.antt =====
-- What is in the store of secrets afterwards, and the laws of such a store.
use mathlib.Core.Option
use builder.Base.{
  ◌⊎◌, ◌∙◌, Bool-cases, Bytes, Bool, true, false, [], ◌∷◌, Option, some, none, ◌≡◌, refl, arith,
  Option-cases, inl, inr, if◌then◌else◌,
}
use builder.Text.Equality.{eqb, eqb_iff}
use builder.Maps.{Map, lookup, lookup-insert}
use builder.Maps.Contents.{Contents, contents, map_contents, map_contents_iff}
use builder.Gitreceive.Secret.{
  secret_type_opaque, Secret, SecretsClient, secret_data, new_secret, create_app_env_config_secret,
}

-- What the documentation of the cluster says of its secrets, seen through `find`: a call that returns no
-- error has stored the secret that it was given, and a call, whether or not it fails, leaves secrets of
-- other names alone. Any call may fail, with any error: for a name that is not valid, say, or where the
-- secret that there is has another type or is immutable.
pub record IsLawful {W E : Type 0} (s : SecretsClient W E) (find : Bytes → W → Option Secret)
    : Type 0 where
  pub created :
      (x : Secret) (w : W) → (s.create x w).1 ≡ none → find x.name (s.create x w).0 ≡ some x
  pub updated :
      (x : Secret) (w : W) → (s.update x w).1 ≡ none → find x.name (s.update x w).0 ≡ some x
  pub create_other :
      (x : Secret) (n : Bytes) (w : W) → eqb x.name n ≡ false → find n (s.create x w).0 ≡ find n w
  pub update_other :
      (x : Secret) (n : Bytes) (w : W) → eqb x.name n ≡ false → find n (s.update x w).0 ≡ find n w

lookup-secret_data :
    {V : Type 0} (sprint : V → Bytes) (env : Map V) (k : Bytes)
    → lookup k (secret_data sprint env) ≡ Option.map sprint (lookup k env)
unfolding secret_data lookup
lookup-secret_data sprint [] k = refl
lookup-secret_data sprint ((j, v) ∷ env) k =
    ground (
      arith,
      lookup-insert j k (sprint v) (secret_data sprint env),
      lookup-secret_data sprint env k,
    )

-- What a secret is to one who reads it: its fields, and the contents of its map.
abbrev pub stored : Option Secret → Option (Bytes × Bytes × Bool × Contents Bytes)
stored none = none
stored (some x) = some (x.name, x.type, x.immutable, contents x.data_map)

module _ {V : Type 0} (sprint : V → Bytes) (secret_name : Bytes) (env : Map V) where
  -- The secret of that name that has the contents of the environment, each value printed.
  abbrev pub env_secret : Option (Bytes × Bytes × Bool × Contents Bytes)
  env_secret = some (secret_name, secret_type_opaque, false, map_contents sprint (contents env))

  stored-new_secret : stored (some (new_secret sprint secret_name env)) ≡ env_secret
  unfolding new_secret
  stored-new_secret =
      rw (map_contents_iff sprint env (secret_data sprint env) (lookup-secret_data sprint env))

module _ {V W E : Type 0} (sprint : V → Bytes) (s : SecretsClient W E)
    (find : Bytes → W → Option Secret) (law : IsLawful s find) (secret_name : Bytes) (env : Map V)
    (w : W) where
  abbrev upserted : W × Option E
  upserted = create_app_env_config_secret sprint s secret_name env w

  abbrev new : Secret
  new = new_secret sprint secret_name env

  -- No error is returned: the secret of that name is the one of the environment, and every other is as it
  -- was.
  abbrev pub HasUpserted : Type 0
  HasUpserted =
      (upserted.1 ≡ none)
      × ((n : Bytes)
          → stored (find n upserted.0)
            ≡ (if eqb secret_name n then env_secret sprint secret_name env else stored (find n w)))

  -- An error is returned, that of Create, if it does not say that there is such a secret, or else that of
  -- Update; and every other secret is as it was.
  abbrev pub HasFailed : Type 0
  HasFailed =
      (e : E) × (upserted.1 ≡ some e)
      × ((((s.create new w).1 ≡ some e) × (s.is_already_exists e ≡ false))
          ⊎ ((f : E) × ((s.create new w).1 ≡ some f)
              × (s.is_already_exists f ≡ true)
              × ((s.update new (s.create new w).0).1 ≡ some e)))
      × ((n : Bytes) → (eqb secret_name n ≡ true) ⊎ (find n upserted.0 ≡ find n w))

  created_only : (s.create new w).1 ≡ none → upserted ≡ ((s.create new w).0, none)
  unfolding create_app_env_config_secret
  created_only fine = rw (fine, create_app_env_config_secret)

  refused_with :
      (e : E)
      → (s.create new w).1 ≡ some e
      → s.is_already_exists e ≡ false
      → upserted ≡ ((s.create new w).0, some e)
  unfolding create_app_env_config_secret
  refused_with e refused says = rw (refused, create_app_env_config_secret) (rw (says))

  updated_after :
      (e : E)
      → (s.create new w).1 ≡ some e
      → s.is_already_exists e ≡ true
      → upserted ≡ s.update new (s.create new w).0
  unfolding create_app_env_config_secret
  updated_after e refused says = rw (refused, create_app_env_config_secret) (rw (says))

  -- A world in which the secret of that name is the new one, and every other as it was.
  stored_lem :
      (v : W)
      → find secret_name v ≡ some new
      → ((n : Bytes) → eqb secret_name n ≡ false → find n v ≡ find n w)
      → (n : Bytes)
      → stored (find n v)
        ≡ (if eqb secret_name n then env_secret sprint secret_name env else stored (find n w))
  stored_lem v found others n = elim (Bool-cases (eqb secret_name n)) [
    | inl same ↦
        rw (same, ← (eqb_iff secret_name n).0 same, found)
          (stored-new_secret sprint secret_name env)
    | inr other ↦ rw (other, others n other)
  ]

  others_lem :
      (v : W)
      → ((n : Bytes) → eqb secret_name n ≡ false → find n v ≡ find n w)
      → (n : Bytes) → (eqb secret_name n ≡ true) ⊎ (find n v ≡ find n w)
  others_lem v others n = elim (Bool-cases (eqb secret_name n)) [
    | inl same ↦ inl same
    | inr other ↦ inr (others n other)
  ]

  -- On a client whose calls do what their documentation says, and may fail: either no error is returned,
  -- and the secret of that name then is mutable and opaque and has the contents of the environment with
  -- each value printed, whatever the order in which the loop visits them, whether or not there was one; or
  -- the error of Create is returned, if it is not that there is such a secret, and else that of Update.
  -- Every other secret is as it was.
  pub create_app_env_config_secret_lem : HasUpserted ⊎ HasFailed
  unfolding new_secret
  create_app_env_config_secret_lem =
      let v = (s.create new w).0 in
      let others : (n : Bytes) → eqb secret_name n ≡ false → find n v ≡ find n w =
        λ n other. law.create_other new n w other in
      elim (Option-cases (s.create new w).1) [
        | inl fine ↦ inl (
          rw (created_only fine),
          λ n. rw (created_only fine) (stored_lem v (law.created new w fine) others n),
        )
        | inr (e, refused) ↦ elim (Bool-cases (s.is_already_exists e)) [
          | inr says ↦ inr (
            e,
            rw (refused_with e refused says),
            inl (refused, says),
            λ n. rw (refused_with e refused says) (others_lem v others n),
          )
          | inl says ↦
              let u = (s.update new v).0 in
              let all_others : (n : Bytes) → eqb secret_name n ≡ false → find n u ≡ find n w =
                λ n other. law.update_other new n v other ∙ others n other in
              elim (Option-cases (s.update new v).1) [
                | inl fine ↦ inl (
                  rw (updated_after e refused says) fine,
                  λ n.
                      rw (updated_after e refused says)
                        (stored_lem u (law.updated new v fine) all_others n),
                )
                | inr (f, fails) ↦ inr (
                  f,
                  rw (updated_after e refused says) fails,
                  inr (e, refused, says, fails),
                  λ n. rw (updated_after e refused says) (others_lem u all_others n),
                )
              ]
        ]
      ]
