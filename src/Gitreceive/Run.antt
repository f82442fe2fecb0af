-- ===== src/Gitreceive/Run.antt =====
-- pkg/gitreceive/run.go
pub mod Updates
use mathlib.Core.Option
use builder.Gitreceive.Config.{Config}
use builder.Base.{if◌then◌else◌, codes, List, some, none, Option, err, ok, Result, Bytes, ◌∷◌, []}
use builder.K8s.Client.{Attempt, returned, panicked}
use builder.Text.{has_prefix, split}

-- fmt.Errorf("malformed line [%s]", line)
pub record MalformedLine : Type 0 where
  pub line : Bytes

-- The test on the number of parts, and the parts.
abbrev pub three_parts : Bytes → List Bytes → Result MalformedLine (Bytes × Bytes × Bytes)
three_parts line (a ∷ b ∷ c ∷ []) = ok (a, b, c)
three_parts line _ = err (record { line = line })

unfoldable pub read_line : Bytes → Result MalformedLine (Bytes × Bytes × Bytes)
read_line line = three_parts line (split line b' ')

pub data RunError (E : Type 0) : Type 0 where
  -- fmt.Errorf("reading STDIN (%s)", err)
  reading_stdin : MalformedLine → RunError E
  build_failed : E → RunError E
  scan_failed : E → RunError E

-- The loop of `Run` over the lines of standard input, where `build` is the call of `build` on a new
-- revision, in a world `W` that it changes, and `scan_error` is `scanner.Err()` at the end.
unfoldable pub run :
    {W E : Type 0}
    → Config
    → (Bytes → W → W × Option E)
    → List Bytes
    → Option E
    → W
    → W × Option (RunError E)
unfolding read_line
run conf build [] scan_error w = (w, Option.map scan_failed scan_error)
run conf build (line ∷ lines) scan_error w = elim (read_line line) [
  | err e ↦ (w, some (reading_stdin e))
  | ok (old_rev, new_rev, ref_name) ↦
      if has_prefix conf.ssh_original_command (codes "git-receive-pack")
      then (let (w', failure) = build new_rev w in
          elim failure [
            | some e ↦ (w', some (build_failed e))
            | none ↦ run conf build lines scan_error w'
          ])
      else run conf build lines scan_error w
]

-- What `Run` ends with: `no_cluster` is "couldn't reach the api server (%s)".
pub data HookError (F E : Type 0) : Type 0 where
  no_cluster : F → HookError F E
  cluster_panicked : F → HookError F E
  hook_failed : RunError E → HookError F E

-- `Run`, where `cluster` is what `k8s.NewInCluster` does; `build` is the call with its client.
unfoldable pub run_hook :
    {W E F K : Type 0}
    → Config
    → Attempt F K
    → (K → Bytes → W → W × Option E)
    → List Bytes
    → Option E
    → W
    → W × Option (HookError F E)
unfolding run
run_hook conf (panicked e) build lines scan_error w = (w, some (cluster_panicked e))
run_hook conf (returned (err e)) build lines scan_error w = (w, some (no_cluster e))
run_hook conf (returned (ok kube_client)) build lines scan_error w =
    let (w', failure) = run conf (build kube_client) lines scan_error w in
    (w', Option.map hook_failed failure)
