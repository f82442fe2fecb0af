-- ===== src/Storage/Object/Waiting.antt =====
-- When `WaitForObject` returns, and what.
use builder.Base.{
  if◌then◌else◌, err, ok, Result, arith, map, ◌++◌, ◌∷◌, [], List, some, none, ◌||◌, false, true,
  Bool, refl, ◌≡◌,
}
use builder.Storage.Object.{
  StatError, path_not_found, other, object_exists, checker, Event, ticked, timer_fired, wait_loop,
  wait_for_object,
}

module _ {E F : Type 0} where
  -- The answer says that the object is there.
  abbrev pub is_found : Result (StatError E) F → Bool
  is_found (ok info) = true
  is_found (err e) = false

  -- Whether one of the answers says so.
  abbrev pub any_found : List (Result (StatError E) F) → Bool
  any_found [] = false
  any_found (stat ∷ stats) = is_found stat || any_found stats

  pub checker-is_found : (stat : Result (StatError E) F) → checker stat ≡ is_found stat
  unfolding checker object_exists
  checker-is_found (ok info) = refl
  checker-is_found (err path_not_found) = refl
  checker-is_found (err (other e)) = refl

  wait_loop-any_found :
      (stats : List (Result (StatError E) F)) (last : Result (StatError E) F)
      (events : List (Event E F))
      → wait_loop (map ticked stats ++ timer_fired last ∷ events)
        ≡ some (any_found stats || is_found last)
  unfolding wait_loop
  wait_loop-any_found [] last events = ground (arith, checker-is_found last)
  wait_loop-any_found (stat ∷ stats) last events =
      ground (arith, checker-is_found stat, wait_loop-any_found stats last events)

  -- When the timer has fired, after any number of ticks, `WaitForObject` has returned: nil if the check
  -- before the loop, the one at a tick or the one at the timeout found the object, and otherwise the error.
  -- An answer that is an error of the store counts as an object that is not there.
  pub wait_for_object_lem :
      (first : Result (StatError E) F) (stats : List (Result (StatError E) F))
      (last : Result (StatError E) F) (events : List (Event E F))
      → wait_for_object first (map ticked stats ++ timer_fired last ∷ events)
        ≡ some (is_found first || (any_found stats || is_found last))
  unfolding wait_for_object
  wait_for_object_lem first stats last events =
      ground (arith, checker-is_found first, wait_loop-any_found stats last events)

  -- While the timer has not fired, it has returned, with nil, exactly when a check has found the object.
  pub wait_for_object_pending :
      (first : Result (StatError E) F) (stats : List (Result (StatError E) F))
      → wait_for_object first (map ticked stats)
        ≡ (if is_found first || any_found stats then some true else none)
  unfolding wait_for_object
  wait_for_object_pending first stats = ground (arith, checker-is_found first, pending stats)
    where
      pending :
          (ss : List (Result (StatError E) F))
          → wait_loop (map ticked ss) ≡ (if any_found ss then some true else none)
      pending [] = unfold wait_loop in refl
      pending (s ∷ ss) = unfold wait_loop in ground (arith, checker-is_found s, pending ss)
