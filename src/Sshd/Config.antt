-- ===== src/Sshd/Config.antt =====
-- pkg/sshd/config.go
pub mod Minutes
use builder.Base.{Bytes}
use builder.Base.Int.{ℤ, scale}

pub record Config : Type 0 where
  pub controller_url : Bytes
  pub ssh_host_ip : Bytes
  pub ssh_host_port : ℤ
  pub health_srv_port : ℤ
  pub health_srv_test_storage_region : Bytes
  pub cleaner_poll_sleep_duration_sec : ℤ
  pub imagebuilder_image_pull_policy : Bytes
  pub lock_timeout : ℤ

-- time.Duration(sec) * time.Second, in nanoseconds
unfoldable pub cleaner_poll_sleep_duration : Config → ℤ
unfolding scale
cleaner_poll_sleep_duration c = scale 1000000000 c.cleaner_poll_sleep_duration_sec

-- time.Duration(min) * time.Minute, in nanoseconds
unfoldable pub git_lock_timeout : Config → ℤ
unfolding scale
git_lock_timeout c = scale 60000000000 c.lock_timeout
