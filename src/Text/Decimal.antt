-- ===== src/Text/Decimal.antt =====
-- fmt's verb %d for a natural number, and %04x.
pub mod Value
use builder.Base.Int.{ℤ, pos, negsuc}
use builder.Base.{
  ◌++◌, length, ◌-◌, replicate, ℕ, zero, suc, ◌+◌, ◌/◌, ◌%◌, [], ◌∷◌, Bytes, ltb, if◌then◌else◌,
}

-- The digits of `n` in a base, behind which `out` stands; a number below `fuel` is printed whole.
digits : ℕ → (ℕ → ℕ) → ℕ → ℕ → Bytes → Bytes
digits base digit zero n out = out
digits base digit (suc fuel) n out =
    let rest = digits base digit fuel (n / base) (digit (n % base) ∷ out) in
    if ltb n base then digit n ∷ out else rest

abbrev decimal_digit : ℕ → ℕ
decimal_digit d = b'0' + d

-- %d
unfoldable pub decimal : ℕ → Bytes
unfolding digits
decimal n = digits 10 decimal_digit (suc n) n []

unfoldable pub hex_digit : ℕ → ℕ
hex_digit d = if ltb d 10 then b'0' + d else b'a' + (d - 10)

-- Zeros in front, up to the width.
pad_zeros : ℕ → Bytes → Bytes
pad_zeros width s = replicate (width - length s) b'0' ++ s

-- %04x
unfoldable pub hex_4 : ℕ → Bytes
unfolding digits hex_digit pad_zeros
hex_4 n = pad_zeros 4 (digits 16 hex_digit (suc n) n [])

-- %d of a signed integer
unfoldable pub print_int : ℤ → Bytes
unfolding decimal
print_int (pos n) = decimal n
print_int (negsuc n) = b'-' ∷ decimal (suc n)
