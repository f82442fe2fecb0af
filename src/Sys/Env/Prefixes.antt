-- ===== src/Sys/Env/Prefixes.antt =====
-- Which variables `realEnv.Environ` keeps.
use mathlib.Core.Option
use builder.Base.{
  ◌∙◌, ap, Bytes, ◌≡◌, refl, List, [], ◌∷◌, ◌++◌, map, All, Option, some, none, Bool, true, false,
  not, ◌&&◌, ◌||◌, if◌then◌else◌, arith,
}
use builder.Maps.{Map, lookup, has_key, insert, lookup-insert}
use builder.Text.{has_prefix, split_2}
use builder.Text.Search.{Lacks}
use builder.Text.Equality.{eqb_iff}
use builder.Sys.Env.{environ, add_env, add_envs}

-- A variable, as `os.Environ` gives it.
abbrev pub print : Bytes × Bytes → Bytes
print (name, value) = name ++ b'=' ∷ value

abbrev pub any_prefix : Bytes → List Bytes → Bool
any_prefix key [] = false
any_prefix key (prefix ∷ prefixs) = has_prefix key prefix || any_prefix key prefixs

split_2-print :
    (name value : Bytes) → Lacks b'=' name → split_2 (print (name, value)) b'=' ≡ (name, some value)
unfolding split_2
split_2-print [] value h = refl
split_2-print (c ∷ name) value h = ground (arith, split_2-print name value h.1)

add_env_present :
    (key : Bytes) (value : Option Bytes) (prefixs : List Bytes) (envs : Map Bytes)
    → has_key key envs ≡ true
    → add_env key value prefixs envs ≡ some envs
unfolding add_env
add_env_present key value [] envs h = refl
add_env_present key value (p ∷ prefixs) envs h =
    ground (arith, add_env_present key value prefixs envs h)

pub has_key-insert :
    (key value : Bytes) (envs : Map Bytes) → has_key key (insert key value envs) ≡ true
unfolding has_key
has_key-insert key value envs = ground (arith, lookup-insert key key value envs, eqb_iff key key)

add_env_lem :
    (key value : Bytes) (prefixs : List Bytes) (envs : Map Bytes)
    → add_env key (some value) prefixs envs
      ≡ some
          (if not (has_key key envs) && any_prefix key prefixs then insert key value envs else envs)
unfolding add_env
add_env_lem key value [] envs = ground arith
add_env_lem key value (p ∷ prefixs) envs = ground (
  arith,
  add_env_lem key value prefixs envs,
  add_env_present key (some value) prefixs (insert key value envs) (has_key-insert key value envs),
)

-- The first of two answers.
abbrev pub or_lookup : Option Bytes → Option Bytes → Option Bytes
or_lookup (some v) o = some v
or_lookup none o = o

add_envs_step :
    (key value : Bytes) (prefixs : List Bytes) (pairs : List (Bytes × Option Bytes))
    (envs : Map Bytes)
    → add_envs prefixs ((key, some value) ∷ pairs) envs
      ≡ add_envs prefixs pairs
          (if not (has_key key envs) && any_prefix key prefixs then insert key value envs else envs)
unfolding add_envs
add_envs_step key value prefixs pairs envs = rw (add_env_lem key value prefixs envs, add_envs)

add_envs_lem :
    (prefixs : List Bytes) (vars envs : Map Bytes) (k : Bytes)
    → Option.map
        (lookup k)
        (add_envs prefixs (map (λ (v : Bytes × Bytes). (v.0, some v.1)) vars) envs)
      ≡ some (or_lookup (lookup k envs) (if any_prefix k prefixs then lookup k vars else none))
unfolding add_envs lookup
add_envs_lem prefixs [] envs k = ground arith
add_envs_lem prefixs ((key, value) ∷ vars) envs k =
    ap (λ (o : Option (Map Bytes)). Option.map (lookup k) o)
      (add_envs_step key value prefixs (map (λ (v : Bytes × Bytes). (v.0, some v.1)) vars) envs)
    ∙ add_envs_lem prefixs vars
        (if not (has_key key envs) && any_prefix key prefixs then insert key value envs else envs) k
    ∙ ap (λ (o : Option Bytes). some o) kept
  where
    kept :
        or_lookup
          (lookup k (
            if not (has_key key envs) && any_prefix key prefixs
            then insert key value envs
            else envs))
          (if any_prefix k prefixs then lookup k vars else none)
        ≡ or_lookup
            (lookup k envs)
            (if any_prefix k prefixs then lookup k ((key, value) ∷ vars) else none)
    kept = unfold has_key in ground (arith, lookup-insert key k value envs, eqb_iff key k)

parse_vars :
    (vars : Map Bytes)
    → All (λ (v : Bytes × Bytes). Lacks b'=' v.0) vars
    → map (λ env. split_2 env b'=') (map print vars)
      ≡ map (λ (v : Bytes × Bytes). (v.0, some v.1)) vars
parse_vars [] h = refl
parse_vars ((key, value) ∷ vars) h = rw (split_2-print key value h.0, parse_vars vars h.1)

-- Of an environment whose names have no equals sign, the variables that are kept are those whose name
-- starts with one of the prefixes, each with its first value; and the call returns.
pub environ_lem :
    (vars : Map Bytes) (prefixs : List Bytes) (k : Bytes)
    → All (λ (v : Bytes × Bytes). Lacks b'=' v.0) vars
    → Option.map (lookup k) (environ (map print vars) prefixs)
      ≡ some (if any_prefix k prefixs then lookup k vars else none)
unfolding environ lookup
environ_lem vars prefixs k h = rw (environ, parse_vars vars h) (add_envs_lem prefixs vars [] k)
