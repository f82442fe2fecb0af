-- ===== src/Healthsrv/Goroutines/Answered.antt =====
-- When a probe answers 200, and how its checks end.
use builder.Base.{
  Option-cases, false, inr, inl, ◌⊎◌, refl, suc, zero, ℕ, ◌+◌, ◌≤◌, Bool, true, none, some, ◌≡◌,
  ◌≢◌, arith,
}
use builder.Healthsrv.Handlers.{status_ok, status_service_unavailable}
use builder.Healthsrv.Goroutines.{
  start, later, Reach, later, stopped, Reach, Checker, absent, sending, received, Probe, Step, call,
  receive, receive_error, time_out, finish, close_stop, stop, init,
}

-- Whether a check has been received from.
abbrev got : Checker → ℕ
got received = 1
got _ = 0

record Inv (outcome : ℕ → Bool) (p : Probe) : Type 0 where
  -- what a check is about to send is what its call found
  honest : (i : ℕ) (b : Bool) → p.checks i ≡ sending b → b ≡ outcome i
  outside : (i : ℕ) → 2 ≤ i → p.checks i ≡ absent
  -- while nothing is written, what has been received was on `succCh`
  open_good :
      (i : ℕ)
      → p.status ≢ some status_service_unavailable
      → p.checks i ≡ received
      → outcome i ≡ true
  counted : p.status ≡ none → p.waiting + got (p.checks 0) + got (p.checks 1) ≡ 2
  complete : p.status ≡ some status_ok → got (p.checks 0) + got (p.checks 1) ≡ 2

start-Inv : (outcome : ℕ → Bool) → Inv outcome init
start-Inv outcome = record {
  honest = λ j b h. ground (arith);
  outside = λ j h. ground (arith);
  open_good = λ j g h. ground (arith);
  counted = λ h. ground (arith);
  complete = λ h. ground (arith);
}

Step-Inv : {outcome : ℕ → Bool} {p q : Probe} → Step outcome p q → Inv outcome p → Inv outcome q
Step-Inv (call i e) v = record {
  honest = λ j b h. ground (arith, v.honest j b);
  outside = λ j h. ground (arith, v.outside i, v.outside j h);
  open_good = λ j g h. ground (arith, v.open_good j g);
  counted = λ h. ground (arith, v.counted h, v.outside i);
  complete = λ h. ground (arith, v.complete h, v.outside i);
}
Step-Inv (receive i e n w) v = record {
  honest = λ j b h. ground (arith, v.honest j b);
  outside = λ j h. ground (arith, v.outside i, v.outside j h);
  open_good = λ j g h. ground (arith, v.open_good j g, v.honest i true e);
  counted = λ h. ground (arith, v.counted n, v.outside i);
  complete = λ h. ground (arith);
}
Step-Inv (receive_error i e n w) v = record {
  honest = λ j b h. ground (arith, v.honest j b);
  outside = λ j h. ground (arith, v.outside i, v.outside j h);
  open_good = λ j g h. ground (arith);
  counted = λ h. ground (arith);
  complete = λ h. ground (arith);
}
Step-Inv (time_out n w) v = record {
  honest = λ j b h. ground (arith, v.honest j b);
  outside = λ j h. ground (arith, v.outside j h);
  open_good = λ j g h. ground (arith);
  counted = λ h. ground (arith);
  complete = λ h. ground (arith);
}
Step-Inv (finish n w) v = record {
  honest = λ j b h. ground (arith, v.honest j b);
  outside = λ j h. ground (arith, v.outside j h);
  open_good = λ j g h. ground (arith, v.open_good j, n);
  counted = λ h. ground (arith);
  complete = λ h. ground (arith, v.counted n);
}
Step-Inv (close_stop e) v = record {
  honest = λ j b h. ground (arith, v.honest j b);
  outside = λ j h. ground (arith, v.outside j h);
  open_good = λ j g h. ground (arith, v.open_good j g);
  counted = λ h. ground (arith, v.counted h);
  complete = λ h. ground (arith, v.complete h);
}
Step-Inv (stop i e c) v = record {
  honest = λ j b h. ground (arith, v.honest j b);
  outside = λ j h. ground (arith, v.outside i, v.outside j h);
  open_good = λ j g h. ground (arith, v.open_good j g);
  counted = λ h. ground (arith, v.counted h, v.outside i);
  complete = λ h. ground (arith, v.complete h, v.outside i);
}

Reach-Inv : {outcome : ℕ → Bool} {p : Probe} → Reach outcome p → Inv outcome p
Reach-Inv {outcome} start = start-Inv outcome
Reach-Inv (later r m) = Step-Inv m (Reach-Inv r)

-- In every reachable state of a probe's goroutines, whatever their order, 200 is written only if the calls
-- of both checks succeeded and both were received from.
pub status_ok-both :
    {outcome : ℕ → Bool} {p : Probe}
    → Reach outcome p
    → p.status ≡ some status_ok
    → (outcome 0 ≡ true) × (outcome 1 ≡ true) × (p.checks 0 ≡ received) × (p.checks 1 ≡ received)
status_ok-both {outcome} {p} r h =
    let v = Reach-Inv r in
    let other : p.status ≢ some status_service_unavailable = λ k. ground arith in
    let both : (p.checks 0 ≡ received) × (p.checks 1 ≡ received) = ground (arith, v.complete h) in
    (v.open_good 0 other both.0, v.open_good 1 other both.1, both.0, both.1)

-- Some steps, one after another.
pub data Steps (outcome : ℕ → Bool) (p : Probe) : Probe → Type 0 where
  none_taken : Steps outcome p p
  then : {q t : Probe} → Steps outcome p q → Step outcome q t → Steps outcome p t

-- The goroutine of check `i` can end.
abbrev pub CanEnd : (ℕ → Bool) → Probe → ℕ → Type 0
CanEnd outcome p i =
    (q : Probe) × Steps outcome p q × ((q.checks i ≡ received) ⊎ (q.checks i ≡ stopped))

-- In every state of a probe, a check whose call has returned can end: some steps lead to a state where it
-- has been received from, or has seen that the handler is gone, so that it is not left blocked on its
-- channel.
pub check-CanEnd :
    {outcome : ℕ → Bool} {p : Probe} (i : ℕ) (b : Bool)
    → p.checks i ≡ sending b
    → CanEnd outcome p i
check-CanEnd {outcome} {p} i b e = elim (Option-cases p.status) [
  | inl none_yet ↦ by_count p.waiting refl b e none_yet
  | inr (s, answered) ↦
      (_, then (then none_taken (close_stop answered)) (stop i e refl), inr (ground arith))
]
  where
    by_count :
        (n : ℕ)
        → p.waiting ≡ n
        → (c : Bool) → p.checks i ≡ sending c
        → p.status ≡ none
        → CanEnd outcome p i
    by_count zero w c f o = (
      _,
      then (then (then none_taken (finish o w)) (close_stop refl)) (stop i f refl),
      inr (ground arith),
    )
    by_count (suc n) w true f o = (_, then none_taken (receive i f o w), inl (ground arith))
    by_count (suc n) w false f o = (_, then none_taken (receive_error i f o w), inl (ground arith))
