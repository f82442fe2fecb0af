-- ===== src/Gitreceive/Job/Examples.antt =====
-- Concrete jobs, pods, stacks and environments.
use mathlib.Core.Option
use builder.Base.{
  ◌==◌, inr, ℕ, Bytes, codes, ◌≡◌, refl, List, [], ◌∷◌, ◌++◌, map, length, Option, some, none,
  Result, ok, err, Bool, true, false, if◌then◌else◌, arith,
}
use builder.Base.Int.{pos, negsuc}
use builder.K8s.{security_context_from_privileged}
use builder.Maps.{Map, get, lookup, insert}
use builder.Text.Equality.{eqb}
use builder.Gitreceive.Stack.{Stack, ConfigValue, string, init_stack, default_stacks}
use builder.Gitreceive.Imagebuilder.Complete.{IsComplete}
use builder.Gitreceive.Pod.{Pod, failed, other_phase, timed_out, wait_for_pod}
use builder.Gitreceive.Pod.Settled.{verdict_up, wait_for_pod_lem}
use builder.Gitreceive.Job.{ttl_seconds}
use builder.Sys.Env.{environ, FakeEnv, fake_get}
use builder.Sys.Env.Prefixes.{any_prefix, environ_lem}

abbrev stack_value : ConfigValue
stack_value = record {
  group = codes "global";
  name = codes "DRYCC_STACK";
  value = string (codes "container");
}

abbrev number_value : ConfigValue
number_value = record { group = codes "web"; name = codes "PORT"; value = string (codes "80") }

abbrev buildpack_stack : Stack
buildpack_stack = (codes "name", codes "buildpack") ∷ (codes "image", codes "a") ∷ []

abbrev container_stack : Stack
container_stack = (codes "name", codes "container") ∷ (codes "image", codes "b") ∷ []

abbrev no_file : Bytes → Bool
no_file path = false

abbrev builder_env : Map Bytes
builder_env =
    (codes "DRYCC_STORAGE_BUCKET", codes "b")
    ∷ (codes "DRYCC_STORAGE_ENDPOINT", codes "e")
    ∷ (codes "DRYCC_STORAGE_PATH_STYLE", codes "on")
    ∷ (codes "DRYCC_REGISTRY_HOST", codes "h")
    ∷ (codes "DRYCC_REGISTRY_PROXY_HOST", codes "p")
    ∷ []

builder_env-IsComplete : IsComplete builder_env
unfolding get lookup eqb builder.Maps.has_key
builder_env-IsComplete = ((refl, (refl, (refl, (refl, tt)))), inr (refl, ground arith))

abbrev waiting_pod : Pod
waiting_pod = record { phase = other_phase; reason = []; message = [] }

abbrev failed_pod : Pod
failed_pod = record { phase = failed; reason = codes "OOM"; message = codes "killed" }

abbrev early_polls : List (Result ℕ (List Pod))
early_polls = err 1 ∷ ok [] ∷ ok (waiting_pod ∷ []) ∷ []

wait_for_pod_lem_example :
    (wait_for_pod (early_polls ++ ok (failed_pod ∷ []) ∷ []) ≡ verdict_up failed_pod)
    × (wait_for_pod early_polls ≡ err timed_out)
wait_for_pod_lem_example = wait_for_pod_lem early_polls [] failed_pod [] (tt, (tt, (refl, tt))) refl

abbrev variables : Map Bytes
variables = (codes "HOME", codes "/root") ∷ (codes "DRYCC_STORAGE_BUCKET", codes "a=b") ∷ []

abbrev prefixes : List Bytes
prefixes = codes "DRYCC_REGISTRY_" ∷ codes "DRYCC_STORAGE_" ∷ []

environ_lem_example :
    Option.map
      (lookup (codes "DRYCC_STORAGE_BUCKET"))
      (environ (map builder.Sys.Env.Prefixes.print variables) prefixes)
    ≡ some (
        if any_prefix (codes "DRYCC_STORAGE_BUCKET") prefixes
        then lookup (codes "DRYCC_STORAGE_BUCKET") variables
        else none)
environ_lem_example = environ_lem variables prefixes (codes "DRYCC_STORAGE_BUCKET") (ground arith)

-- Tests of what is only printed, parsed or passed on.
ttl_seconds_parsed :
    (ttl_seconds [] ≡ pos 21600)
    × (ttl_seconds (codes "60") ≡ pos 60)
    × (ttl_seconds (codes "-1") ≡ negsuc 0)
    × (ttl_seconds (codes "2147483648") ≡ pos 21600)
    × (ttl_seconds (codes "6h") ≡ pos 21600)
unfolding ttl_seconds eqb
ttl_seconds_parsed = (refl, refl, refl, refl, refl)

privileged_kept : (security_context_from_privileged true).privileged ≡ true
unfolding security_context_from_privileged
privileged_kept = refl

fake_env_read : fake_get (record { envs = variables }) (codes "HOME") ≡ codes "/root"
unfolding fake_get get lookup eqb
fake_env_read = refl

-- Where the configured file cannot be read, the default text is decoded.
abbrev decode : Bytes → List Stack × Option ℕ
decode text =
    if length text == length default_stacks
    then (buildpack_stack ∷ container_stack ∷ [], none)
    else ([], some 1)

abbrev unreadable : Bytes → Result ℕ Bytes
unreadable path = err 2

stacks_loaded : init_stack decode unreadable ≡ (buildpack_stack ∷ container_stack ∷ [], none)
unfolding init_stack
stacks_loaded = refl
