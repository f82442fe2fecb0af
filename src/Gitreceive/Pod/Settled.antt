-- ===== src/Gitreceive/Pod/Settled.antt =====
-- When a wait for a pod ends, and how.
use builder.Base.{
  append-nil, none, Option, ◌∙◌, Bytes, ◌≡◌, refl, Bool, true, false, List, [], ◌∷◌, ◌++◌, All,
  Result, ok, err, arith,
}
use builder.Gitreceive.Pod.{
  Phase, running, succeeded, failed, other_phase, Pod, WaitError, failed_status, timed_out, is_up,
  is_over, wait_for_pod_condition, wait_for_pod, wait_for_pod_end,
}

abbrev pub is_started : Phase → Bool
is_started other_phase = false
is_started _ = true

abbrev pub is_ended : Phase → Bool
is_ended succeeded = true
is_ended failed = true
is_ended _ = false

abbrev pub verdict_up : Pod → Result WaitError (Unit {0})
verdict_up pod = elim pod.phase [ failed ↦ err (failed_status pod.reason pod.message) | _ ↦ ok tt ]

up_pending :
    (phase : Phase) (reason message : Bytes)
    → is_started phase ≡ false
    → is_up (record { phase = phase; reason = reason; message = message }) ≡ (false, none)
unfolding is_up
up_pending running reason message h = ground arith
up_pending succeeded reason message h = ground arith
up_pending failed reason message h = ground arith
up_pending other_phase reason message h = refl

over_pending :
    (phase : Phase) (reason message : Bytes)
    → is_ended phase ≡ false
    → is_over (record { phase = phase; reason = reason; message = message }) ≡ (false, none)
unfolding is_over
over_pending running reason message h = refl
over_pending succeeded reason message h = ground arith
over_pending failed reason message h = ground arith
over_pending other_phase reason message h = refl

module _ {E : Type 0} where
  -- The poll gives no pod whose phase passes the test.
  abbrev pub IsPending : (Phase → Bool) → Result E (List Pod) → Type 0
  IsPending test (err e) = Unit
  IsPending test (ok []) = Unit
  IsPending test (ok (pod ∷ pods)) = test pod.phase ≡ false

  polled_later :
      (condition : Pod → Bool × Option WaitError) (test : Phase → Bool)
      → ((pod : Pod) → test pod.phase ≡ false → condition pod ≡ (false, none))
      → (before after : List (Result E (List Pod))) → All (IsPending test) before
      → wait_for_pod_condition condition (before ++ after) ≡ wait_for_pod_condition condition after
  unfolding wait_for_pod_condition
  polled_later condition test c [] after h = refl
  polled_later condition test c (err e ∷ before) after h =
      polled_later condition test c before after h.1
  polled_later condition test c (ok [] ∷ before) after h =
      polled_later condition test c before after h.1
  polled_later condition test c (ok (pod ∷ pods) ∷ before) after h =
      ground (arith, c pod h.0, polled_later condition test c before after h.1)

  up_now :
      (phase : Phase) (reason message : Bytes) (pods : List Pod)
      (after : List (Result E (List Pod)))
      → is_started phase ≡ true
      → wait_for_pod_condition is_up
          (ok (record { phase = phase; reason = reason; message = message } ∷ pods) ∷ after)
        ≡ verdict_up (record { phase = phase; reason = reason; message = message })
  unfolding wait_for_pod_condition is_up
  up_now running reason message pods after h = refl
  up_now succeeded reason message pods after h = refl
  up_now failed reason message pods after h = refl
  up_now other_phase reason message pods after h = ground arith

  over_now :
      (phase : Phase) (reason message : Bytes) (pods : List Pod)
      (after : List (Result E (List Pod)))
      → is_ended phase ≡ true
      → wait_for_pod_condition is_over
          (ok (record { phase = phase; reason = reason; message = message } ∷ pods) ∷ after)
        ≡ ok tt
  unfolding wait_for_pod_condition is_over
  over_now running reason message pods after h = ground arith
  over_now succeeded reason message pods after h = refl
  over_now failed reason message pods after h = refl
  over_now other_phase reason message pods after h = ground arith

  -- `waitForPod` returns at the first poll whose first pod is running, succeeded or failed: with nil, or,
  -- for a pod that failed, with an error that has its reason and message. Where no poll before the timeout
  -- shows such a pod, it returns the timeout.
  pub wait_for_pod_lem :
      (before after : List (Result E (List Pod))) (pod : Pod) (pods : List Pod)
      → All (IsPending is_started) before
      → is_started pod.phase ≡ true
      → (wait_for_pod (before ++ ok (pod ∷ pods) ∷ after) ≡ verdict_up pod)
        × (wait_for_pod before ≡ err timed_out)
  unfolding wait_for_pod
  wait_for_pod_lem before after pod pods h started =
      let later =
        polled_later is_up is_started (λ p. up_pending p.phase p.reason p.message) before in
      (
        later (ok (pod ∷ pods) ∷ after) h
            ∙ up_now pod.phase pod.reason pod.message pods after started,
        rw (← append-nil before) (later [] h ∙ unfold wait_for_pod_condition in refl),
      )

  -- `waitForPodEnd` returns nil at the first poll whose first pod has succeeded or failed, and otherwise
  -- the timeout: that a pod has failed is no error.
  pub wait_for_pod_end_lem :
      (before after : List (Result E (List Pod))) (pod : Pod) (pods : List Pod)
      → All (IsPending is_ended) before
      → is_ended pod.phase ≡ true
      → (wait_for_pod_end (before ++ ok (pod ∷ pods) ∷ after) ≡ ok tt)
        × (wait_for_pod_end before ≡ err timed_out)
  unfolding wait_for_pod_end
  wait_for_pod_end_lem before after pod pods h ended =
      let later =
        polled_later is_over is_ended (λ p. over_pending p.phase p.reason p.message) before in
      (
        later (ok (pod ∷ pods) ∷ after) h
            ∙ over_now pod.phase pod.reason pod.message pods after ended,
        rw (← append-nil before) (later [] h ∙ unfold wait_for_pod_condition in refl),
      )
