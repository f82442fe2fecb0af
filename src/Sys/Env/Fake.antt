-- ===== src/Sys/Env/Fake.antt =====
-- The environment in memory beside the real one.
use mathlib.Core.Option
use builder.Base.{
  ◌∙◌, ap, sym, Bytes, ◌≡◌, refl, List, [], ◌∷◌, map, All, Option, some, none, true, not, ◌&&◌,
  if◌then◌else◌, arith,
}
use builder.Maps.{Map, get, lookup, has_key, insert, lookup-insert}
use builder.Text.Search.{Lacks}
use builder.Text.Equality.{eqb_iff}
use builder.Sys.Env.{environ, FakeEnv, add_fake, add_fakes, fake_environ}
use builder.Sys.Env.Prefixes.{print, any_prefix, or_lookup, has_key-insert, environ_lem}

add_fake_present :
    (key value : Bytes) (prefixs : List Bytes) (envs : Map Bytes)
    → has_key key envs ≡ true
    → add_fake key value prefixs envs ≡ envs
unfolding add_fake
add_fake_present key value [] envs h = refl
add_fake_present key value (p ∷ prefixs) envs h =
    ground (arith, add_fake_present key value prefixs envs h)

add_fake_lem :
    (key value : Bytes) (prefixs : List Bytes) (envs : Map Bytes)
    → add_fake key value prefixs envs
      ≡ (if not (has_key key envs) && any_prefix key prefixs then insert key value envs else envs)
unfolding add_fake
add_fake_lem key value [] envs = ground arith
add_fake_lem key value (p ∷ prefixs) envs = ground (
  arith,
  add_fake_lem key value prefixs envs,
  add_fake_present key value prefixs (insert key value envs) (has_key-insert key value envs),
)

-- What the keys of `rest` add for `k`.
abbrev added : Map Bytes → List Bytes → Map Bytes → Bytes → Option Bytes
added all prefixs rest k = if any_prefix k prefixs && has_key k rest then some (get k all) else none

lookup-add_fakes :
    (all : Map Bytes) (prefixs : List Bytes) (rest envs : Map Bytes) (k : Bytes)
    → lookup k (add_fakes all prefixs rest envs)
      ≡ or_lookup (lookup k envs) (added all prefixs rest k)
unfolding add_fakes has_key lookup
lookup-add_fakes all prefixs [] envs k = ground arith
lookup-add_fakes all prefixs ((key, value) ∷ rest) envs k = ground (
  arith,
  lookup-add_fakes all prefixs rest (add_fake key (get key all) prefixs envs) k,
  add_fake_lem key (get key all) prefixs envs,
  lookup-insert key k (get key all) envs,
  eqb_iff key k,
)

whole :
    (all : Map Bytes) (prefixs : List Bytes) (k : Bytes)
    → added all prefixs all k ≡ (if any_prefix k prefixs then lookup k all else none)
unfolding has_key get
whole all prefixs k = ground arith

-- Where no name has an equals sign, the environment in memory gives for any prefixes the variables, with
-- their values, that the real one gives where the operating system has the same variables.
pub fake_environ-environ :
    (f : FakeEnv) (prefixs : List Bytes) (k : Bytes)
    → All (λ (v : Bytes × Bytes). Lacks b'=' v.0) f.envs
    → Option.map (lookup k) (environ (map print f.envs) prefixs)
      ≡ some (lookup k (fake_environ f prefixs))
unfolding fake_environ lookup
fake_environ-environ f prefixs k h =
    environ_lem f.envs prefixs k h
    ∙ ap (λ (o : Option Bytes). some o)
        (sym (lookup-add_fakes f.envs prefixs f.envs [] k ∙ whole f.envs prefixs k))
