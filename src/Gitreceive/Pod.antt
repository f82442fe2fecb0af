-- ===== src/Gitreceive/Pod.antt =====
-- `waitForPod`, `waitForPodEnd` and `waitForPodCondition` of pkg/gitreceive/k8s_util.go. What the watcher
-- lists at each poll is an argument of the model: the first poll is at once, and the list ends where the
-- timeout is up.
pub mod Settled
pub mod Watched
mod Examples
use builder.Base.{
  Bytes, Bool, true, false, List, [], ◌∷◌, Option, some, none, Result, ok, err, if◌then◌else◌,
}

pub data Phase : Type 0 where
  running succeeded failed : Phase
  -- Pending, Unknown, or not set
  other_phase : Phase

pub record Pod : Type 0 where
  pub phase : Phase
  pub reason : Bytes
  pub message : Bytes

pub data WaitError : Type 0 where
  -- "giving up; pod went into failed status: \n[%s]:%s"
  failed_status : (reason message : Bytes) → WaitError
  timed_out : WaitError

-- The condition of `waitForPod`.
is_up : Pod → Bool × Option WaitError
is_up pod = elim pod.phase [
  | running ↦ (true, none)
  | succeeded ↦ (true, none)
  | failed ↦ (true, some (failed_status pod.reason pod.message))
  | other_phase ↦ (false, none)
]

-- The condition of `waitForPodEnd`.
is_over : Pod → Bool × Option WaitError
is_over pod = elim pod.phase [
  | succeeded ↦ (true, none)
  | failed ↦ (true, none)
  | running ↦ (false, none)
  | other_phase ↦ (false, none)
]

module _ {E : Type 0} where
  unfoldable pub wait_for_pod_condition :
      (Pod → Bool × Option WaitError) → List (Result E (List Pod)) → Result WaitError (Unit {0})
  wait_for_pod_condition condition [] = err timed_out
  wait_for_pod_condition condition (err e ∷ polls) = wait_for_pod_condition condition polls
  wait_for_pod_condition condition (ok [] ∷ polls) = wait_for_pod_condition condition polls
  wait_for_pod_condition condition (ok (pod ∷ pods) ∷ polls) =
      let (done, failure) = condition pod in
      let rest = wait_for_pod_condition condition polls in
      elim failure [ some e ↦ err e | none ↦ if done then ok tt else rest ]

  unfoldable pub wait_for_pod : List (Result E (List Pod)) → Result WaitError (Unit {0})
  unfolding wait_for_pod_condition is_up
  wait_for_pod polls = wait_for_pod_condition is_up polls

  unfoldable pub wait_for_pod_end : List (Result E (List Pod)) → Result WaitError (Unit {0})
  unfolding wait_for_pod_condition is_over
  wait_for_pod_end polls = wait_for_pod_condition is_over polls
