-- ===== src/Gitreceive/Config/Durations.antt =====
-- `CheckDurations`, and durations in nanoseconds.
use builder.Base.{All, ◌∷◌, [], ◌∙◌, ap, sym, ◌<◌, ◌^◌, ◌*◌, ℕ, arith, ◌≡◌}
use builder.Base.Int.{ℤ, pos, ltb_ℤ, ◌≤ℤ◌}
use builder.Gitreceive.Config.{
  session_idle_interval, object_storage_wait_duration, object_storage_tick_duration,
  builder_pod_wait_duration, builder_pod_tick_duration, Config, builder_pod_tick,
  object_storage_tick, check_tick, check_durations, milliseconds,
}

check_tick_lem :
    (default tick wait : ℤ)
    → (default ≤ℤ check_tick default tick wait)
      × (ltb_ℤ default wait ≡ ltb_ℤ (check_tick default tick wait) wait)
unfolding check_tick
check_tick_lem default tick wait = ground arith

-- After the check each tick is at least its default; and it is below its wait exactly when the default
-- is. The waits are not changed.
pub check_durations_lem :
    (c : Config)
    → (builder_pod_tick ≤ℤ (check_durations c).builder_pod_tick_duration_msec)
      × (object_storage_tick ≤ℤ (check_durations c).object_storage_tick_duration_msec)
      × (ltb_ℤ
            (check_durations c).builder_pod_tick_duration_msec
            (check_durations c).builder_pod_wait_duration_msec
          ≡ ltb_ℤ builder_pod_tick c.builder_pod_wait_duration_msec)
      × (ltb_ℤ
            (check_durations c).object_storage_tick_duration_msec
            (check_durations c).object_storage_wait_duration_msec
          ≡ ltb_ℤ object_storage_tick c.object_storage_wait_duration_msec)
unfolding check_durations
check_durations_lem c =
    let builder =
      check_tick_lem builder_pod_tick c.builder_pod_tick_duration_msec
        c.builder_pod_wait_duration_msec in
    let storage =
      check_tick_lem object_storage_tick c.object_storage_tick_duration_msec
        c.object_storage_wait_duration_msec in
    (builder.0, storage.0, sym builder.1, sym storage.1)

milliseconds_lem : (n : ℕ) → n * 1000000 < 2 ^ 63 → milliseconds (pos n) ≡ pos (n * 1000000)
unfolding milliseconds
milliseconds_lem n h = ground arith

-- The five durations, where the configured numbers of milliseconds are not negative and none overflows
-- an int64 in nanoseconds: each is a million nanoseconds for each of its own milliseconds.
pub durations_lem :
    (c : Config) (tick wait object_tick object_wait idle : ℕ)
    → c.builder_pod_tick_duration_msec ≡ pos tick
    → c.builder_pod_wait_duration_msec ≡ pos wait
    → c.object_storage_tick_duration_msec ≡ pos object_tick
    → c.object_storage_wait_duration_msec ≡ pos object_wait
    → c.session_idle_interval_msec ≡ pos idle
    → All (λ n. n * 1000000 < 2 ^ 63) (tick ∷ wait ∷ object_tick ∷ object_wait ∷ idle ∷ [])
    → (builder_pod_tick_duration c ≡ pos (tick * 1000000))
      × (builder_pod_wait_duration c ≡ pos (wait * 1000000))
      × (object_storage_tick_duration c ≡ pos (object_tick * 1000000))
      × (object_storage_wait_duration c ≡ pos (object_wait * 1000000))
      × (session_idle_interval c ≡ pos (idle * 1000000))
unfolding builder_pod_tick_duration builder_pod_wait_duration object_storage_tick_duration
    object_storage_wait_duration session_idle_interval
durations_lem c tick wait object_tick object_wait idle a b d e f h = (
  ap milliseconds a ∙ milliseconds_lem tick h.0,
  ap milliseconds b ∙ milliseconds_lem wait h.1.0,
  ap milliseconds d ∙ milliseconds_lem object_tick h.1.1.0,
  ap milliseconds e ∙ milliseconds_lem object_wait h.1.1.1.0,
  ap milliseconds f ∙ milliseconds_lem idle h.1.1.1.1.0,
)
