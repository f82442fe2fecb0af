-- ===== src/Sshd/Circuit/Balance.antt =====
-- What any sequence of calls leaves behind.
use builder.Base.{ℕ, suc, ◌+◌, ◌≡◌, ◌↔◌, ◌≤◌, true, List, [], ◌∷◌, arith, if◌then◌else◌}
use builder.Sshd.Circuit.{
  Circuit, open_state, closed_state, new_circuit, state, close, open_circuit,
}

-- What a goroutine may call.
pub data Call : Type 0 where
  closes opens : Call

-- A circuit, with the number of calls of `Close` and of `Open` that have returned true.
pub record Tally : Type 0 where
  pub circuit : Circuit
  pub closed : ℕ
  pub opened : ℕ

pub call : Tally → Call → Tally
call t closes =
    let (c, changed) = close t.circuit in
    record t { circuit = c; closed = if changed then suc t.closed else t.closed }
call t opens =
    let (c, changed) = open_circuit t.circuit in
    record t { circuit = c; opened = if changed then suc t.opened else t.opened }

pub run : Tally → List Call → Tally
run t [] = t
run t (c ∷ cs) = run (call t c) cs

abbrev pub start : Tally
start = record { circuit = new_circuit; closed = 0; opened = 0 }

pub record IsBalanced (t : Tally) : Type 0 where
  pub two_states : t.circuit.bit ≤ closed_state
  pub balance : t.closed ≡ t.opened + t.circuit.bit

call-IsBalanced : (t : Tally) (c : Call) → IsBalanced t → IsBalanced (call t c)
unfolding call close open_circuit
call-IsBalanced t closes v = ground arith
call-IsBalanced t opens v = ground arith

run-IsBalanced : (t : Tally) (cs : List Call) → IsBalanced t → IsBalanced (run t cs)
unfolding run
run-IsBalanced t [] v = v
run-IsBalanced t (c ∷ cs) v = run-IsBalanced (call t c) cs (call-IsBalanced t c v)

start-IsBalanced : IsBalanced start
unfolding new_circuit
start-IsBalanced = omega arith

-- After any sequence of calls of `Close` and `Open` on a new circuit, from whatever goroutines, the
-- word is one of the two states, and the calls of `Close` that returned true are as many as those of
-- `Open` that did, and one more if the circuit is closed.
pub run-start-IsBalanced : (cs : List Call) → IsBalanced (run start cs)
run-start-IsBalanced cs = run-IsBalanced start cs start-IsBalanced

-- In a circuit whose word is one of the two states, `Close` leaves the closed state and returns true
-- exactly when the state was open, and `Open` leaves the open state and returns true exactly when the
-- state was closed.
pub close_open_lem :
    (c : Circuit)
    → c.bit ≤ closed_state
    → (state (close c).0 ≡ closed_state)
      × (((close c).1 ≡ true) ↔ (state c ≡ open_state))
      × (state (open_circuit c).0 ≡ open_state)
      × (((open_circuit c).1 ≡ true) ↔ (state c ≡ closed_state))
unfolding close open_circuit state
close_open_lem c h = ground arith
