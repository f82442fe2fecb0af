-- ===== src/Gitreceive/Progress/Quiet.antt =====
-- Where the caller and the goroutine of `progress` may stand together.
use builder.Base.{true, false, ◌≡◌, ◌≢◌, ◌⊎◌, inl, inr, refl, arith}
use builder.Gitreceive.Progress.{
  Caller, busy, telling, awaiting, gone, selecting, closing, returned, State, Step, finish, tick,
  tell, close_quit, await, init, Reach, start, later, Steps, none_taken, then,
}

record Inv (s : State) : Type 0 where
  before : (s.caller ≡ busy) ⊎ (s.caller ≡ telling) → s.printer ≡ selecting
  between : s.caller ≡ awaiting → (s.printer ≡ closing) ⊎ (s.printer ≡ returned)
  behind : s.caller ≡ gone → s.printer ≡ returned
  opened : s.printer ≢ returned → s.quit_closed ≡ false
  closed : s.printer ≡ returned → s.quit_closed ≡ true

start-Inv : Inv init
start-Inv = record {
  before = λ h. refl;
  between = λ h. absurd (ground arith);
  behind = λ h. absurd (ground arith);
  opened = λ h. refl;
  closed = λ h. absurd (ground arith);
}

Step-Inv : {s t : State} → Step s t → Inv s → Inv t
Step-Inv (finish e) v = record {
  before = λ h. ground (arith, v.before);
  between = λ h. ground (arith, v.between, v.before);
  behind = λ h. ground (arith, v.behind, v.between, v.closed, v.opened);
  opened = λ h. ground (arith, v.opened);
  closed = λ h. ground (arith, v.closed);
}
Step-Inv (tick e) v = record {
  before = λ h. ground (arith, v.before);
  between = λ h. ground (arith, v.between, v.before);
  behind = λ h. ground (arith, v.behind, v.between, v.closed, v.opened);
  opened = λ h. ground (arith, v.opened);
  closed = λ h. ground (arith, v.closed);
}
Step-Inv (tell e w o) v = record {
  before = λ h. ground (arith, v.before);
  between = λ h. ground (arith, v.between, v.before);
  behind = λ h. ground (arith, v.behind, v.between, v.closed, v.opened);
  opened = λ h. ground (arith, v.opened);
  closed = λ h. ground (arith, v.closed);
}
Step-Inv (close_quit e) v = record {
  before = λ h. ground (arith, v.before);
  between = λ h. ground (arith, v.between, v.before);
  behind = λ h. ground (arith, v.behind, v.between, v.closed, v.opened);
  opened = λ h. ground (arith, v.opened);
  closed = λ h. ground (arith, v.closed);
}
Step-Inv (await e o) v = record {
  before = λ h. ground (arith, v.before);
  between = λ h. ground (arith, v.between, v.before);
  behind = λ h. ground (arith, v.behind, v.between, v.closed, v.opened);
  opened = λ h. ground (arith, v.opened);
  closed = λ h. ground (arith, v.closed);
}

Reach-Inv : {s : State} → Reach s → Inv s
Reach-Inv start = start-Inv
Reach-Inv (later r m) = Step-Inv m (Reach-Inv r)

-- The caller gets past the exchange.
abbrev pub CanGo : State → Type 0
CanGo s = (t : State) × Steps s t × (t.caller ≡ gone)

from_awaiting : {s u : State} → Inv u → Steps s u → u.caller ≡ awaiting → CanGo s
from_awaiting v taken e = elim (v.between e) [
  | inl w ↦ (_, then (then taken (close_quit w)) (await e refl), refl)
  | inr w ↦ (_, then taken (await e (v.closed w)), refl)
]

from_telling : {s u : State} → Inv u → Steps s u → u.caller ≡ telling → CanGo s
from_telling v taken e =
    let w = v.before (inr e) in
    let o = v.opened (ground (arith, w)) in
    from_awaiting (Step-Inv (tell e w o) v) (then taken (tell e w o)) refl

is_gone : (c : Caller) → (c ≢ gone) ⊎ (c ≡ gone)
is_gone gone = inr refl
is_gone busy = inl λ h. cc
is_gone telling = inl λ h. cc
is_gone awaiting = inl λ h. cc

is_telling : (c : Caller) → (c ≢ telling) ⊎ (c ≡ telling)
is_telling telling = inr refl
is_telling busy = inl λ h. cc
is_telling awaiting = inl λ h. cc
is_telling gone = inl λ h. cc

-- In every reachable state: either the caller has yet to get past the exchange, or the goroutine has
-- returned, so that no step prints anything more; either the caller is not about to send, or the channel is
-- open, so that sending is no panic; and some steps take the caller past the exchange, wherever it stands.
pub progress_lem :
    {s : State}
    → Reach s
    → ((s.caller ≢ gone) ⊎ (s.printer ≡ returned))
      × ((s.caller ≢ telling) ⊎ (s.quit_closed ≡ false))
      × CanGo s
progress_lem {s} r =
    let v = Reach-Inv r in
    (quiet v (is_gone s.caller), no_panic v (is_telling s.caller), by_caller v s.caller refl)
  where
    quiet :
        Inv s → (s.caller ≢ gone) ⊎ (s.caller ≡ gone) → (s.caller ≢ gone) ⊎ (s.printer ≡ returned)
    quiet v (inl h) = inl h
    quiet v (inr h) = inr (v.behind h)

    no_panic :
        Inv s
        → (s.caller ≢ telling) ⊎ (s.caller ≡ telling)
        → (s.caller ≢ telling) ⊎ (s.quit_closed ≡ false)
    no_panic v (inl h) = inl h
    no_panic v (inr h) = inr (ground (arith, v.before (inr h), v.opened))

    by_caller : Inv s → (c : Caller) → s.caller ≡ c → CanGo s
    by_caller v busy e = from_telling (Step-Inv (finish e) v) (then none_taken (finish e)) refl
    by_caller v telling e = from_telling v none_taken e
    by_caller v awaiting e = from_awaiting v none_taken e
    by_caller v gone e = (s, none_taken, e)
