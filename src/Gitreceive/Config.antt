-- ===== src/Gitreceive/Config.antt =====
-- pkg/gitreceive/config.go
pub mod App
pub mod Durations
use builder.Base.{take, if◌then◌else◌, codes, Bytes, some, none, not, Bool}
use builder.Base.Int.{ℤ, pos, ltb_ℤ, scale}
use builder.Text.{last_index}

-- Milliseconds
abbrev pub builder_pod_tick : ℤ
builder_pod_tick = pos 100

abbrev pub object_storage_tick : ℤ
object_storage_tick = pos 500

pub record Config : Type 0 where
  pub controller_url : Bytes
  pub git_home : Bytes
  pub ssh_connection : Bytes
  pub ssh_original_command : Bytes
  pub repository : Bytes
  pub username : Bytes
  pub fingerprint : Bytes
  pub pod_namespace : Bytes
  pub storage_region : Bytes
  pub debug : Bool
  pub builder_pod_tick_duration_msec : ℤ
  pub builder_pod_wait_duration_msec : ℤ
  pub object_storage_tick_duration_msec : ℤ
  pub object_storage_wait_duration_msec : ℤ
  pub session_idle_interval_msec : ℤ
  pub imagebuilder_image_pull_policy : Bytes
  pub builder_pod_node_selector : Bytes

-- The body of `Config.App`, on the repository's name; the index is in range, so the slice is `take`.
unfoldable pub app_name : Bytes → Bytes
app_name repository = elim (last_index repository (codes ".")) [
  | none ↦ repository
  | some li ↦ take li repository
]

unfoldable pub app : Config → Bytes
unfolding app_name
app c = app_name c.repository

-- time.Duration(msec) * time.Millisecond, in nanoseconds
unfoldable pub milliseconds : ℤ → ℤ
unfolding scale
milliseconds = scale 1000000

pub builder_pod_tick_duration : Config → ℤ
unfolding milliseconds
builder_pod_tick_duration c = milliseconds c.builder_pod_tick_duration_msec

pub builder_pod_wait_duration : Config → ℤ
unfolding milliseconds
builder_pod_wait_duration c = milliseconds c.builder_pod_wait_duration_msec

pub object_storage_tick_duration : Config → ℤ
unfolding milliseconds
object_storage_tick_duration c = milliseconds c.object_storage_tick_duration_msec

pub object_storage_wait_duration : Config → ℤ
unfolding milliseconds
object_storage_wait_duration c = milliseconds c.object_storage_wait_duration_msec

unfoldable pub session_idle_interval : Config → ℤ
unfolding milliseconds
session_idle_interval c = milliseconds c.session_idle_interval_msec

-- The two tests on a tick, of which the second sees what the first has set.
check_tick : ℤ → ℤ → ℤ → ℤ
check_tick default tick wait =
    let tick' = if not (ltb_ℤ tick wait) then default else tick in
    if ltb_ℤ tick' default then default else tick'

unfoldable pub check_durations : Config → Config
unfolding check_tick
check_durations c = record c {
  builder_pod_tick_duration_msec =
      check_tick builder_pod_tick c.builder_pod_tick_duration_msec c.builder_pod_wait_duration_msec;
  object_storage_tick_duration_msec =
      check_tick object_storage_tick c.object_storage_tick_duration_msec
        c.object_storage_wait_duration_msec;
}
