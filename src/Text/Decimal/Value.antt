-- ===== src/Text/Decimal/Value.antt =====
-- A printed number is read back.
use builder.Base.{
  length-replicate, length-append, ◌%◌, ◌/◌, replicate, length, Bool-cases, if◌then◌else◌, ltb,
  Bytes, arith, ◌++◌, ◌∷◌, [], inr, inl, ◌∙◌, refl, ◌≡◌, ◌<◌, ◌≤◌, ◌^◌, ◌*◌, ◌-◌, ◌+◌, suc, zero, ℕ,
}
use builder.Text.Decimal.{digits, hex_digit, hex_4}

-- The number that a hexadecimal digit stands for.
abbrev hex_value_of : ℕ → ℕ
hex_value_of c = if ltb c b'a' then c - b'0' else c - b'a' + 10

-- The number that hexadecimal digits stand for, behind a number `n`.
abbrev pub hex_value : ℕ → Bytes → ℕ
hex_value n [] = n
hex_value n (c ∷ s) = hex_value (n * 16 + hex_value_of c) s

hex_value_of-hex_digit : (d : ℕ) → d < 16 → hex_value_of (hex_digit d) ≡ d
unfolding hex_digit
hex_value_of-hex_digit d h = ground arith

hex_value-digits :
    (fuel n : ℕ) (out : Bytes)
    → n < fuel
    → hex_value 0 (digits 16 hex_digit fuel n out) ≡ hex_value n out
unfolding digits
hex_value-digits zero n out h = absurd (omega arith)
hex_value-digits (suc fuel) n out h = elim (Bool-cases (ltb n 16)) [
  | inl small ↦ rw small (ground (arith, hex_value_of-hex_digit n))
  | inr large ↦ rw large (
      ground (
        arith,
        hex_value-digits fuel (n / 16) (hex_digit (n % 16) ∷ out),
        hex_value_of-hex_digit (n % 16),
      ))
]

hex_value-zeros : (k : ℕ) (s : Bytes) → hex_value 0 (replicate k b'0' ++ s) ≡ hex_value 0 s
hex_value-zeros zero s = refl
hex_value-zeros (suc k) s = hex_value-zeros k s

-- `%04x` of a number is read back.
pub hex_value-hex_4 : (n : ℕ) → hex_value 0 (hex_4 n) ≡ n
unfolding hex_4
hex_value-hex_4 n =
    hex_value-zeros (4 - length printed) printed ∙ hex_value-digits (suc n) n [] (omega arith)
  where
    printed : Bytes
    printed = digits 16 hex_digit (suc n) n []

-- What `suc k` digits have room for.
abbrev room : ℕ → ℕ
room zero = 16
room (suc k) = 16 * room k

length-digits :
    (k fuel n : ℕ) (out : Bytes)
    → n < fuel
    → n < room k
    → length (digits 16 hex_digit fuel n out) ≤ suc k + length out
unfolding digits
length-digits k zero n out h b = absurd (omega arith)
length-digits zero (suc fuel) n out h b = ground arith
length-digits (suc k) (suc fuel) n out h b =
    ground (arith, length-digits k fuel (n / 16) (hex_digit (n % 16) ∷ out))

-- Below 2 ^ 16 it is four digits.
pub length-hex_4 : (n : ℕ) → n < 2 ^ 16 → length (hex_4 n) ≡ 4
unfolding hex_4
length-hex_4 n h = omega (
  arith,
  length-append (replicate (4 - length printed) b'0') printed,
  length-replicate {A = ℕ} (4 - length printed) b'0',
  length-digits 3 (suc n) n [] (omega arith) (omega arith),
)
  where
    printed : Bytes
    printed = digits 16 hex_digit (suc n) n []
