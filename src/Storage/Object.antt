-- ===== src/Storage/Object.antt =====
-- pkg/storage/object.go. What the store answers is an argument of the model: one answer for each call.
pub mod Waiting
pub mod Statter
use builder.Base.{
  if◌then◌else◌, err, ok, Result, ◌∷◌, [], List, some, none, Option, false, true, Bool,
}

-- The errors of `Stat`: `storagedriver.PathNotFoundError`, and any other.
pub data StatError (E : Type 0) : Type 0 where
  path_not_found : StatError E
  other : E → StatError E

-- What the `select` of `WaitForObject` may receive, with the answer to the check that follows.
pub data Event (E F : Type 0) : Type 0 where
  ticked : Result (StatError E) F → Event E F
  timer_fired : Result (StatError E) F → Event E F

module _ {E F : Type 0} where
  -- `ObjectExists`, on what `Stat` gives; `F` is the type of its information on a file.
  unfoldable pub object_exists : Result (StatError E) F → Bool × Option E
  object_exists (err path_not_found) = (false, none)
  object_exists (err (other e)) = (false, some e)
  object_exists (ok info) = (true, none)

  -- `checker` of `WaitForObject`: whether it returns nil.
  pub checker : Result (StatError E) F → Bool
  unfolding object_exists
  checker stat =
      let (exists, failure) = object_exists stat in elim failure [ some e ↦ false | none ↦ exists ]

  -- The loop, over the events that come: whether the object was found, or `none` while neither channel
  -- has anything more to receive.
  wait_loop : List (Event E F) → Option Bool
  unfolding checker
  wait_loop [] = none
  wait_loop (ticked stat ∷ events) =
      let rest = wait_loop events in if checker stat then some true else rest
  wait_loop (timer_fired stat ∷ events) = if checker stat then some true else some false

  -- `WaitForObject`: true is nil, and false the error that the object did not exist.
  unfoldable pub wait_for_object : Result (StatError E) F → List (Event E F) → Option Bool
  unfolding wait_loop
  wait_for_object first events = if checker first then some true else wait_loop events
