-- ===== src/Sshd/Circuit.antt =====
-- pkg/sshd/circuit.go: a word that is changed by atomic compare-and-swap only. A call is one atomic
-- step, so a run of any number of goroutines is a sequence of calls.
pub mod Balance
pub mod Shared
mod Examples
use builder.Base.{ℕ, ◌≡◌, Bool, true, false, List, [], ◌∷◌, ◌++◌, Bytes, codes, ◌==◌, if◌then◌else◌}
use builder.Text.Decimal.{decimal}

abbrev pub open_state : ℕ
open_state = 0

abbrev pub closed_state : ℕ
closed_state = 1

pub circuit_state_string : ℕ → Bytes
circuit_state_string c =
    if c == open_state
    then codes "OPEN"
    else if c == closed_state
    then codes "CLOSED"
    else codes "Unknown (" ++ (decimal c ++ codes ")")

pub record Circuit : Type 0 where
  pub bit : ℕ

unfoldable pub new_circuit : Circuit
new_circuit = record { bit = open_state }

unfoldable pub state : Circuit → ℕ
state c = c.bit

-- atomic.CompareAndSwapUint32
compare_and_swap : ℕ → ℕ → ℕ → ℕ × Bool
compare_and_swap word old new = if word == old then (new, true) else (word, false)

unfoldable pub close : Circuit → Circuit × Bool
unfolding compare_and_swap
close c =
    let (bit', swapped) = compare_and_swap c.bit open_state closed_state in
    (record { bit = bit' }, swapped)

pub open_circuit : Circuit → Circuit × Bool
unfolding compare_and_swap
open_circuit c =
    let (bit', swapped) = compare_and_swap c.bit closed_state open_state in
    (record { bit = bit' }, swapped)
