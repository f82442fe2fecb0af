-- ===== src/Sshd/Lock/Held.antt =====
-- The lock against its contract: a set of repository names.
use builder.Base.{
  refl, ◌≡◌, Bool, true, false, not, some, Bytes, Result, ok, err, arith, if◌then◌else◌,
}
use builder.Text.Equality.{eqb, eqb_iff}
use builder.Maps.{lookup, lookup-insert, lookup-delete, has_key}
use builder.Sshd.Lock.{
  already_locked, InMemoryRepoLock, new_in_memory_repository_lock, lock, unlock,
}

-- The names that are locked.
unfoldable pub held : InMemoryRepoLock → Bytes → Bool
unfolding has_key
held rl name = has_key name rl.data_map

abbrev pub succeeds {ℓ κ} : {E : Type ℓ} {A : Type κ} → Result E A → Bool
succeeds (ok a) = true
succeeds (err e) = false

-- Only `true` is ever stored, so `Unlock` removes what it finds.
abbrev pub IsMarked : InMemoryRepoLock → Type 0
IsMarked rl = (k : Bytes) (v : Bool) → lookup k rl.data_map ≡ some v → v ≡ true

pub new-IsMarked : (timeout : _) → IsMarked (new_in_memory_repository_lock timeout)
unfolding new_in_memory_repository_lock lookup
new-IsMarked timeout k v e = ground arith

pub new-held : (timeout : _) (k : Bytes) → held (new_in_memory_repository_lock timeout) k ≡ false
unfolding held new_in_memory_repository_lock lookup
new-held timeout k = refl

pub lock_free :
    (rl : InMemoryRepoLock) (name : Bytes) → held rl name ≡ false → (lock rl name).1 ≡ ok tt
unfolding lock held
lock_free rl name h = ground arith

pub lock_taken :
    (rl : InMemoryRepoLock) (name : Bytes)
    → held rl name ≡ true
    → lock rl name ≡ (rl, err (already_locked name))
unfolding lock held
lock_taken rl name h = ground arith

-- Both methods keep every stored value `true`.
pub lock-unlock-IsMarked :
    (rl : InMemoryRepoLock) (name : Bytes)
    → IsMarked rl
    → IsMarked (lock rl name).0 × IsMarked (unlock rl name).0
unfolding lock unlock
lock-unlock-IsMarked rl name m = (
  λ k v e. ground (arith, m k v, lookup-insert name k true rl.data_map),
  λ k v e. ground (arith, m k v, lookup-delete name k rl.data_map),
)

-- `Lock` fails exactly when the name is held, and afterwards the name is held; every other name is as
-- it was.
pub lock-held :
    (rl : InMemoryRepoLock) (name k : Bytes)
    → (succeeds (lock rl name).1 ≡ not (held rl name))
      × (held (lock rl name).0 k ≡ (if eqb name k then true else held rl k))
unfolding lock held
lock-held rl name k = ground (arith, eqb_iff name k, lookup-insert name k true rl.data_map)

-- Where every stored value is `true`, `Unlock` fails exactly when the name is not held, and
-- afterwards the name is not held; every other name is as it was.
pub unlock-held :
    (rl : InMemoryRepoLock) (name k : Bytes)
    → IsMarked rl
    → (succeeds (unlock rl name).1 ≡ held rl name)
      × (held (unlock rl name).0 k ≡ (if eqb name k then false else held rl k))
unfolding unlock held
unlock-held rl name k m =
    ground (arith, eqb_iff name k, m name false, lookup-delete name k rl.data_map)
