-- ===== src/Healthsrv/Handlers/Status.antt =====
-- Which status a handler writes.
use builder.Base.{
  Result, Bytes, arith, ◌∷◌, [], List, some, none, Option, ◌||◌, ◌&&◌, false, true, Bool, ◌↔◌, ◌≢◌,
  ◌≡◌, ℕ,
}
use builder.Sshd.Circuit.{Circuit, state, closed_state}
use builder.Healthsrv.Checks.{controller_state, list_namespaces, circuit_state, list_buckets}
use builder.Healthsrv.Handlers.{
  readiness_handler, Source, first_check, second_check, timer, collect, health_z_handler, status_ok,
}

abbrev pub is_first : Source → Bool
is_first first_check = true
is_first _ = false

abbrev pub is_second : Source → Bool
is_second second_check = true
is_second _ = false

abbrev pub is_timer : Source → Bool
is_timer timer = true
is_timer _ = false

-- Whether such a source is received from before the timer.
abbrev pub arrives : (Source → Bool) → List Source → Bool
arrives p [] = false
arrives p (timer ∷ sources) = false
arrives p (first_check ∷ sources) = p first_check || arrives p sources
arrives p (second_check ∷ sources) = p second_check || arrives p sources

abbrev pub has_timer : List Source → Bool
has_timer [] = false
has_timer (s ∷ sources) = is_timer s || has_timer sources

-- The status, where what is to come is that, and both checks or one are still to be received from.
abbrev Verdict : Bool → Bool → List Source → Option ℕ → Type 0
Verdict good arrived sources status =
    ((good && arrived) ≡ true → status ≡ some status_ok)
    × ((good && arrived) ≡ false → status ≢ some status_ok)
    × (has_timer sources ≡ true → status ≢ none)

second_left :
    (b : Bool) (ss : List Source) → Verdict b (arrives is_second ss) ss (collect 1 none (some b) ss)
unfolding collect
second_left b [] = ground arith
second_left b (timer ∷ ss) = ground arith
second_left b (first_check ∷ ss) = second_left b ss
second_left true (second_check ∷ ss) = ground arith
second_left false (second_check ∷ ss) = ground arith

first_left :
    (a : Bool) (ss : List Source) → Verdict a (arrives is_first ss) ss (collect 1 (some a) none ss)
unfolding collect
first_left a [] = ground arith
first_left a (timer ∷ ss) = ground arith
first_left true (first_check ∷ ss) = ground arith
first_left false (first_check ∷ ss) = ground arith
first_left true (second_check ∷ ss) = first_left true ss
first_left false (second_check ∷ ss) = first_left false ss

both_left :
    (a b : Bool) (ss : List Source)
    → Verdict
        (a && b)
        (arrives is_first ss && arrives is_second ss)
        ss
        (collect 2 (some a) (some b) ss)
unfolding collect
both_left a b [] = ground arith
both_left a b (timer ∷ ss) = ground arith
both_left true b (first_check ∷ ss) = ground (arith, second_left b ss)
both_left false b (first_check ∷ ss) = ground arith
both_left true true (second_check ∷ ss) = ground (arith, first_left true ss)
both_left false true (second_check ∷ ss) = ground (arith, first_left false ss)
both_left true false (second_check ∷ ss) = ground arith
both_left false false (second_check ∷ ss) = ground arith

-- The health probe answers 200 exactly when the circuit is closed, the buckets could be listed, and both
-- checks are received from before the timer.
pub health_z_handler_lem :
    {E : Type 0} (buckets : Result E (List Bytes)) (circ : Circuit) (sources : List Source)
    → (health_z_handler buckets circ sources ≡ some status_ok) ↔ (
        (state circ ≡ closed_state)
        × (list_buckets buckets ≡ true)
        × (arrives is_first sources ≡ true)
        × (arrives is_second sources ≡ true))
unfolding health_z_handler circuit_state
health_z_handler_lem buckets circ sources =
    grind (arith, both_left (circuit_state circ) (list_buckets buckets) sources)

-- The readiness probe answers 200 exactly when the namespaces could be listed, the controller is
-- compatible, and both checks are received from before the timer.
pub readiness_handler_lem :
    {E N : Type 0} (is_api_mismatch : E → Bool) (health : Option E) (ns_list : Result E N)
    (sources : List Source)
    → (readiness_handler is_api_mismatch health ns_list sources ≡ some status_ok) ↔ (
        (list_namespaces ns_list ≡ true)
        × (controller_state is_api_mismatch health ≡ true)
        × (arrives is_first sources ≡ true)
        × (arrives is_second sources ≡ true))
unfolding readiness_handler
readiness_handler_lem is_api_mismatch health ns_list sources =
    grind
      (arith, both_left (list_namespaces ns_list) (controller_state is_api_mismatch health) sources)

-- Once the timer has fired, the health probe and the readiness probe have answered.
pub handlers-timer :
    {E N : Type 0} (buckets : Result E (List Bytes)) (circ : Circuit) (is_api_mismatch : E → Bool)
    (health : Option E) (ns_list : Result E N) (sources : List Source)
    → has_timer sources ≡ true
    → (health_z_handler buckets circ sources ≢ none)
      × (readiness_handler is_api_mismatch health ns_list sources ≢ none)
unfolding health_z_handler readiness_handler
handlers-timer buckets circ is_api_mismatch health ns_list sources timed =
    let healthz = both_left (circuit_state circ) (list_buckets buckets) sources in
    let readiness =
      both_left (list_namespaces ns_list) (controller_state is_api_mismatch health) sources in
    (healthz.2 timed, readiness.2 timed)
