-- ===== src/Sshd/Circuit/Shared.antt =====
-- The pointers that `NewCircuit` of pkg/sshd/circuit.go gives, and the circuits that they point to: a
-- goroutine that has a pointer sees what another does to the circuit, if the pointer is the same.
use builder.Base.{ℕ, zero, suc, List, [], ◌∷◌, ◌++◌, length, Option, some, none}
use builder.Sshd.Circuit.{Circuit, new_circuit}

-- The circuits that have been made, in their order; a pointer is a place among them.
abbrev pub Circuits : Type 0
Circuits = List Circuit

-- `NewCircuit`
unfoldable pub new_circuit_in : Circuits → Circuits × ℕ
unfolding new_circuit
new_circuit_in circuits = (circuits ++ new_circuit ∷ [], length circuits)

-- What a pointer points to.
unfoldable pub load_circuit : ℕ → Circuits → Option Circuit
load_circuit p [] = none
load_circuit zero (c ∷ circuits) = some c
load_circuit (suc p) (c ∷ circuits) = load_circuit p circuits

-- What is left where a method changes the circuit behind a pointer.
unfoldable pub store_circuit : ℕ → Circuit → Circuits → Circuits
store_circuit p c [] = []
store_circuit zero c (old ∷ circuits) = c ∷ circuits
store_circuit (suc p) c (old ∷ circuits) = old ∷ store_circuit p c circuits
