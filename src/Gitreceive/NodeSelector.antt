-- ===== src/Gitreceive/NodeSelector.antt =====
-- `buildBuilderPodNodeSelector` of pkg/gitreceive/build.go
pub mod Parts
use builder.Text.Equality.{eqb}
use builder.Base.{if◌then◌else◌, err, ok, Result, Bytes, ◌∷◌, [], List, not}
use builder.Text.{split, trim_space}
use builder.Maps.{Map, insert}

-- fmt.Errorf("invalid BuilderPodNodeSelector value format: %s", config)
pub record InvalidNodeSelector : Type 0 where
  pub config : Bytes

-- The loop over the parts between commas.
add_parts : Bytes → List Bytes → Map Bytes → Result InvalidNodeSelector (Map Bytes)
add_parts config [] selector = ok selector
add_parts config (line ∷ lines) selector = elim (split line b':') [
  | key ∷ value ∷ [] ↦ add_parts config lines (insert (trim_space key) (trim_space value) selector)
  | _ ↦ err (record { config = config })
]

unfoldable pub build_builder_pod_node_selector : Bytes → Result InvalidNodeSelector (Map Bytes)
unfolding add_parts
build_builder_pod_node_selector config =
    if not (eqb config []) then add_parts config (split config b',') [] else ok []
