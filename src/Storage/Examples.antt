-- ===== src/Storage/Examples.antt =====
-- A concrete store.
use builder.Base.{ℕ, ◌≡◌, some, [], ◌∷◌, ◌++◌, map, Result, err, ok, ◌||◌}
use builder.Storage.Object.{StatError, path_not_found, other, ticked, timer_fired, wait_for_object}
use builder.Storage.Object.Waiting.{is_found, any_found, wait_for_object_lem}

abbrev missing : Result (StatError ℕ) ℕ
missing = err path_not_found

abbrev failing : Result (StatError ℕ) ℕ
failing = err (other 5)

abbrev found : Result (StatError ℕ) ℕ
found = ok 3

wait_for_object_lem_example :
    wait_for_object missing
      (map ticked (missing ∷ failing ∷ []) ++ timer_fired found ∷ ticked missing ∷ [])
    ≡ some (is_found missing || (any_found (missing ∷ failing ∷ []) || is_found found))
wait_for_object_lem_example =
    wait_for_object_lem missing (missing ∷ failing ∷ []) found (ticked missing ∷ [])
