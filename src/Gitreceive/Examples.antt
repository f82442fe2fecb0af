-- ===== src/Gitreceive/Examples.antt =====
-- A concrete configuration and push.
use mathlib.Core.Option
use builder.Base.{
  arith, ℕ, Bytes, codes, ◌≡◌, ◌↔◌, none, Option, List, [], ◌∷◌, ok, map, if◌then◌else◌,
}
use builder.Text.{has_prefix, join}
use builder.Gitreceive.Samples.{conf}
use builder.Gitreceive.Run.{read_line, run, build_failed}
use builder.Gitreceive.Run.Updates.{Update, HasNoSpace, read_line_lem, build_all, run_lem}
use builder.Gitreceive.NodeSelector.{build_builder_pod_node_selector}
use builder.Gitreceive.NodeSelector.Parts.{labels, build_builder_pod_node_selector-labels}

abbrev change : Update
change = record { old_rev = codes "000"; new_rev = codes "abc"; ref_name = codes "refs/heads/main" }

read_line_lem_example :
    (read_line (codes "000 abc refs/heads/main")
      ≡ ok (change.old_rev, change.new_rev, change.ref_name))
    ↔ ((codes "000 abc refs/heads/main" ≡ builder.Gitreceive.Run.Updates.print change)
        × HasNoSpace change)
read_line_lem_example = read_line_lem (codes "000 abc refs/heads/main") change

-- The builds so far.
abbrev build : Bytes → List Bytes → List Bytes × Option ℕ
build new_rev built = (new_rev ∷ built, none)

run_lem_example :
    run conf build (map builder.Gitreceive.Run.Updates.print (change ∷ [])) none [] ≡ (
      if has_prefix conf.ssh_original_command (codes "git-receive-pack")
      then (
        (build_all build (map (λ (u : Update). u.new_rev) (change ∷ [])) []).0,
        Option.map build_failed
            (build_all build (map (λ (u : Update). u.new_rev) (change ∷ [])) []).1,
      )
      else ([], none))
run_lem_example = run_lem conf build (change ∷ []) [] (ground arith)

build_builder_pod_node_selector-labels_example :
    build_builder_pod_node_selector (codes "disk:ssd, zone : a")
    ≡ ok (labels ((codes "disk", codes "ssd") ∷ (codes " zone ", codes " a") ∷ []) [])
unfolding join
build_builder_pod_node_selector-labels_example =
    build_builder_pod_node_selector-labels (codes "disk", codes "ssd")
      ((codes " zone ", codes " a") ∷ []) (ground arith)
