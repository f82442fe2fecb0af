-- ===== src/Sshd/Lock.antt =====
-- pkg/sshd/lock.go: the lock that is held for a repository while it is pushed to. Both methods run
-- under the mutex of the lock, so each is one atomic step on the map.
pub mod Held
pub mod Refined
use builder.Base.Int.{ℤ}
use builder.Base.{
  ℕ, ◌≡◌, Bool, true, false, Option, none, some, [], Bytes, Result, ok, err, if◌then◌else◌,
}
use builder.Maps.{Map, lookup, insert, delete}

pub data LockError : Type 0 where
  -- fmt.Errorf("repository %q already locked", repoName)
  already_locked : (repo_name : Bytes) → LockError
  -- fmt.Errorf("repository %q not found", repoName)
  not_found : (repo_name : Bytes) → LockError

-- `timeout` is a `time.Duration`, in nanoseconds.
pub record InMemoryRepoLock : Type 0 where
  pub data_map : Map Bool
  pub timeout : ℤ

unfoldable pub new_in_memory_repository_lock : ℤ → InMemoryRepoLock
new_in_memory_repository_lock timeout = record { data_map = []; timeout = timeout }

unfoldable pub lock : InMemoryRepoLock → Bytes → InMemoryRepoLock × Result LockError (Unit {0})
lock rl repo_name = elim (lookup repo_name rl.data_map) [
  | none ↦ (record rl { data_map = insert repo_name true rl.data_map }, ok tt)
  | some _ ↦ (rl, err (already_locked repo_name))
]

unfoldable pub unlock : InMemoryRepoLock → Bytes → InMemoryRepoLock × Result LockError (Unit {0})
unlock rl repo_name = elim (lookup repo_name rl.data_map) [
  | none ↦ (rl, err (not_found repo_name))
  | some locked ↦
      (if locked then record rl { data_map = delete repo_name rl.data_map } else rl, ok tt)
]
