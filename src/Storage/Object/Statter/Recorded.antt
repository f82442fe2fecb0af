-- ===== src/Storage/Object/Statter/Recorded.antt =====
-- `WaitForObject` over a statter that its calls change, against the answers that it gives, and what a fake
-- records of it.
use builder.Base.{
  Bytes, List, [], ◌∷◌, ◌++◌, ℕ, suc, replicate, append_assoc, append-nil, Result, ◌≡◌, refl, sym,
  ap, ◌∙◌, if◌then◌else◌, arith, Bool-cases, inl, inr,
}
use builder.Storage.Object.{StatError, Event, ticked, timer_fired, wait_loop, wait_for_object}
use builder.Storage.Object.Waiting.{is_found, checker-is_found}
use builder.Storage.Interfaces.{
  ObjectStatter, FakeStatObjectCall, FakeObjectStatter, fake_object_statter,
}
use builder.Storage.Object.Statter.{Channel, ticker, timer, wait_on, wait_for_object_on}

module _ {W E F : Type 0} (statter : ObjectStatter W E F) (obj_key : Bytes) where
  -- What the statter answers, if it is asked at every receive.
  pub events_on : List Channel → W → List (Event E F)
  events_on [] w = []
  events_on (ticker ∷ channels) w =
      ticked (statter.stat obj_key w).1 ∷ events_on channels (statter.stat obj_key w).0
  events_on (timer ∷ channels) w =
      timer_fired (statter.stat obj_key w).1 ∷ events_on channels (statter.stat obj_key w).0

  wait_on-wait_loop :
      (channels : List Channel) (w : W)
      → (wait_on statter obj_key channels w).1 ≡ wait_loop (events_on channels w)
  unfolding wait_on wait_loop events_on
  wait_on-wait_loop [] w = refl
  wait_on-wait_loop (ticker ∷ channels) w =
      ground (arith, wait_on-wait_loop channels (statter.stat obj_key w).0)
  wait_on-wait_loop (timer ∷ channels) w = ground arith

  wait_for_object_on-wait_for_object :
      (channels : List Channel) (w : W)
      → (wait_for_object_on statter obj_key channels w).1
        ≡ wait_for_object (statter.stat obj_key w).1 (events_on channels (statter.stat obj_key w).0)
  unfolding wait_for_object_on wait_for_object
  wait_for_object_on-wait_for_object channels w =
      ground (arith, wait_on-wait_loop channels (statter.stat obj_key w).0)

-- How many checks are made at the events: up to the first that finds the object, or the timeout.
abbrev pub checks : {E F : Type 0} → List (Event E F) → ℕ
checks [] = 0
checks (ticked stat ∷ events) = let rest = checks events in if is_found stat then 1 else suc rest
checks (timer_fired stat ∷ events) = 1

module _ {W E F : Type 0} (fn : Bytes → W → W × Result (StatError E) F) (obj_key : Bytes) where
  -- A fake whose function is `fn`, after the calls.
  abbrev pub after : List FakeStatObjectCall → W → FakeObjectStatter W E F × W
  after calls w = (record { fn = fn; calls = calls }, w)

  abbrev pub call : FakeStatObjectCall
  call = record { path = obj_key }

  -- What `fn` answers, if it is asked at every receive.
  abbrev pub given : List Channel → W → List (Event E F)
  given = events_on (record { stat = fn }) obj_key

  wait_on-calls :
      (channels : List Channel) (calls : List FakeStatObjectCall) (w : W)
      → (wait_on fake_object_statter obj_key channels (after calls w)).0.0.calls
        ≡ calls ++ replicate (checks (given channels w)) call
  unfolding wait_on fake_object_statter events_on
  wait_on-calls [] calls w = sym (append-nil calls)
  wait_on-calls (timer ∷ channels) calls w = refl
  wait_on-calls (ticker ∷ channels) calls w = elim (Bool-cases (is_found (fn obj_key w).1)) [
    | inl found ↦ rw (checker-is_found (fn obj_key w).1, found)
    | inr missing ↦
        rw (checker-is_found (fn obj_key w).1, missing)
          (wait_on-calls channels (calls ++ call ∷ []) (fn obj_key w).0
            ∙ append_assoc calls (call ∷ [])
                (replicate (checks (given channels (fn obj_key w).0)) call))
  ]

  given-fake :
      (channels : List Channel) (calls : List FakeStatObjectCall) (w : W)
      → events_on fake_object_statter obj_key channels (after calls w) ≡ given channels w
  unfolding events_on fake_object_statter
  given-fake [] calls w = refl
  given-fake (ticker ∷ channels) calls w =
      ap (λ es. ticked (fn obj_key w).1 ∷ es)
        (given-fake channels (calls ++ call ∷ []) (fn obj_key w).0)
  given-fake (timer ∷ channels) calls w =
      ap (λ es. timer_fired (fn obj_key w).1 ∷ es)
        (given-fake channels (calls ++ call ∷ []) (fn obj_key w).0)

  -- On a fake, `WaitForObject` returns what it does on the answers of the fake's function, and has recorded
  -- one call, for the key, for each check: the one before the loop and, if that does not find the object,
  -- those at the ticks up to the first that finds it, or up to the timeout.
  pub wait_for_object_on_lem :
      (channels : List Channel) (calls : List FakeStatObjectCall) (w : W)
      → ((wait_for_object_on fake_object_statter obj_key channels (after calls w)).1
          ≡ wait_for_object (fn obj_key w).1 (given channels (fn obj_key w).0))
        × ((wait_for_object_on fake_object_statter obj_key channels (after calls w)).0.0.calls
            ≡ calls
              ++ replicate
                  (checks (ticked (fn obj_key w).1 ∷ given channels (fn obj_key w).0))
                  call)
  unfolding wait_for_object_on fake_object_statter
  wait_for_object_on_lem channels calls w = (
    wait_for_object_on-wait_for_object fake_object_statter obj_key channels (after calls w)
        ∙ ap (wait_for_object (fn obj_key w).1)
            (given-fake channels (calls ++ call ∷ []) (fn obj_key w).0),
    elim (Bool-cases (is_found (fn obj_key w).1)) [
      | inl found ↦ rw (checker-is_found (fn obj_key w).1, found)
      | inr missing ↦
          rw (checker-is_found (fn obj_key w).1, missing)
            (wait_on-calls channels (calls ++ call ∷ []) (fn obj_key w).0
              ∙ append_assoc calls (call ∷ [])
                  (replicate (checks (given channels (fn obj_key w).0)) call))
    ],
  )
