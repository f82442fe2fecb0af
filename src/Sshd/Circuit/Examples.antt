-- ===== src/Sshd/Circuit/Examples.antt =====
-- How states are printed.
use builder.Base.{codes, ◌≡◌, refl}
use builder.Sshd.Circuit.{circuit_state_string}
use builder.Text.Decimal.{decimal}

states_printed :
    (circuit_state_string 0 ≡ codes "OPEN")
    × (circuit_state_string 1 ≡ codes "CLOSED")
    × (circuit_state_string 12 ≡ codes "Unknown (12)")
unfolding circuit_state_string decimal
states_printed = (refl, refl, refl)
