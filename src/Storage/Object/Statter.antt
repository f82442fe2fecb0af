-- ===== src/Storage/Object/Statter.antt =====
-- `WaitForObject` of pkg/storage/object.go over a statter that its calls change.
pub mod Recorded
use builder.Base.{Bytes, List, [], ◌∷◌, Bool, Option, some, none, if◌then◌else◌}
use builder.Storage.Interfaces.{ObjectStatter}
use builder.Storage.Object.{checker}

-- What the `select` of `WaitForObject` receives from.
pub data Channel : Type 0 where
  ticker timer : Channel

module _ {W E F : Type 0} (statter : ObjectStatter W E F) (obj_key : Bytes) where
  -- The loop of `WaitForObject`, over the channels that it receives from, on a statter that its calls
  -- change: what is left, and whether the object was found, if it has returned.
  pub wait_on : List Channel → W → W × Option Bool
  unfolding checker
  wait_on [] w = (w, none)
  wait_on (ticker ∷ channels) w =
      let (w', answer) = statter.stat obj_key w in
      let rest = wait_on channels w' in if checker answer then (w', some Bool.true) else rest
  wait_on (timer ∷ channels) w =
      let (w', answer) = statter.stat obj_key w in (w', some (checker answer))

  -- `WaitForObject`
  unfoldable pub wait_for_object_on : List Channel → W → W × Option Bool
  unfolding wait_on checker
  wait_for_object_on channels w =
      let (w', answer) = statter.stat obj_key w in
      if checker answer then (w', some Bool.true) else wait_on channels w'
