-- ===== src/Sys/Env.antt =====
-- pkg/sys/env.go
pub mod Prefixes
pub mod Fake
use builder.Base.{map, Bytes, List, [], ◌∷◌, Option, some, none, not, ◌&&◌, if◌then◌else◌}
use builder.Maps.{Map, get, has_key, insert}
use builder.Text.{has_prefix, split_2}

-- The loop over the prefixes, for one variable. Its value is `none` where the text has no equals sign,
-- and then reading it is a panic.
add_env : Bytes → Option Bytes → List Bytes → Map Bytes → Option (Map Bytes)
add_env key value [] envs = some envs
add_env key value (prefix ∷ prefixs) envs =
    let skipped = add_env key value prefixs envs in
    if not (has_key key envs) && has_prefix key prefix
    then elim value [ none ↦ none | some v ↦ add_env key value prefixs (insert key v envs) ]
    else skipped

add_envs : List Bytes → List (Bytes × Option Bytes) → Map Bytes → Option (Map Bytes)
unfolding add_env
add_envs prefixs [] envs = some envs
add_envs prefixs ((key, value) ∷ pairs) envs = elim (add_env key value prefixs envs) [
  | none ↦ none
  | some envs' ↦ add_envs prefixs pairs envs'
]

-- `realEnv.Environ`, where `os_environ` is what `os.Environ` gives. `none` is a panic.
unfoldable pub environ : List Bytes → List Bytes → Option (Map Bytes)
unfolding add_envs
environ os_environ prefixs = add_envs prefixs (map (λ env. split_2 env b'=') os_environ) []

-- `FakeEnv.Get`
pub record FakeEnv : Type 0 where
  pub envs : Map Bytes

unfoldable pub fake_get : FakeEnv → Bytes → Bytes
fake_get f name = get name f.envs

-- The loop of `FakeEnv.Environ` over the prefixes, for one key, whose value is `value`.
pub add_fake : Bytes → Bytes → List Bytes → Map Bytes → Map Bytes
add_fake key value [] envs = envs
add_fake key value (prefix ∷ prefixs) envs =
    let skipped = add_fake key value prefixs envs in
    let added = add_fake key value prefixs (insert key value envs) in
    if not (has_key key envs) && has_prefix key prefix then added else skipped

-- Its loop over the keys.
pub add_fakes : Map Bytes → List Bytes → Map Bytes → Map Bytes → Map Bytes
unfolding add_fake
add_fakes all prefixs [] envs = envs
add_fakes all prefixs ((key, value) ∷ rest) envs =
    add_fakes all prefixs rest (add_fake key (get key all) prefixs envs)

unfoldable pub fake_environ : FakeEnv → List Bytes → Map Bytes
unfolding add_fakes
fake_environ f prefixs = add_fakes f.envs prefixs f.envs []
