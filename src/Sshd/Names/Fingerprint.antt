-- ===== src/Sshd/Names/Fingerprint.antt =====
-- `fingerprint`: its buffer is exactly large enough, and what it prints.
use builder.Base.{
  length-append, ◌==◌, ltb, codes, append_assoc, append-nil, map, ◌&&◌, false, true, ◌*◌, ◌+◌, suc,
  replicate, length, Bytes, arith, ◌++◌, ◌∷◌, [], some, refl, ◌≡◌, ◌<◌, ◌%◌, ◌/◌, ℕ,
}
use builder.Text.{join}
use builder.Text.Decimal.{hex_digit}
use builder.Sshd.Names.{hex_encode, put, colon_loop, fingerprint}

-- The two digits of a byte.
abbrev pub hex_byte : ℕ → Bytes
hex_byte b = hex_digit (b / 16) ∷ hex_digit (b % 16) ∷ []

-- A write behind what has been written.
put_next :
    (done : Bytes) (c : ℕ) (z : ℕ) (rest : Bytes)
    → put (length done) c (done ++ z ∷ rest) ≡ some ((done ++ c ∷ []) ++ rest)
unfolding put
put_next [] c z rest = refl
put_next (d ∷ done) c z rest = ground (arith, put_next done c z rest)

-- The digits with a colon in front of each pair.
coloned : Bytes → Bytes
coloned [] = []
coloned (b ∷ s) = b':' ∷ hex_digit (b / 16) ∷ hex_digit (b % 16) ∷ coloned s

-- A round that writes one byte behind what has been written, and one that writes a colon before it.
plain_round :
    (i b z : ℕ) (buf done rest : Bytes)
    → (ltb 0 i && (i % 2 == 0)) ≡ false
    → colon_loop i (length done) (b ∷ buf) (done ++ z ∷ rest)
      ≡ colon_loop (suc i) (length (done ++ b ∷ [])) buf ((done ++ b ∷ []) ++ rest)
unfolding colon_loop
plain_round i b z buf done rest e =
    rw (e, put_next done b z rest, length-append done (b ∷ []), length_suc)
  where
    length_suc : length done + 1 ≡ suc (length done)
    length_suc = omega arith

colon_round :
    (i b z z' : ℕ) (buf done rest : Bytes)
    → (ltb 0 i && (i % 2 == 0)) ≡ true
    → colon_loop i (length done) (b ∷ buf) (done ++ z ∷ z' ∷ rest)
      ≡ colon_loop
          (suc i)
          (length ((done ++ b':' ∷ []) ++ b ∷ []))
          buf
          (((done ++ b':' ∷ []) ++ b ∷ []) ++ rest)
unfolding colon_loop
colon_round i b z z' buf done rest e =
    rw (e, put_next done b':' z (z' ∷ rest), one, put_next (done ++ b':' ∷ []) b z' rest, two)
  where
    one : suc (length done) ≡ length (done ++ b':' ∷ [])
    one = omega (arith, length-append done (b':' ∷ []))

    two : length ((done ++ b':' ∷ []) ++ b ∷ []) ≡ suc (length (done ++ b':' ∷ []))
    two = omega (arith, length-append (done ++ b':' ∷ []) (b ∷ []))

colon_loop_lem :
    (s done : Bytes) (i : ℕ)
    → 0 < i
    → i % 2 ≡ 0
    → colon_loop i (length done) (hex_encode s) (done ++ replicate (length (coloned s)) 0)
      ≡ some (done ++ coloned s)
unfolding colon_loop coloned hex_encode
colon_loop_lem [] done i pos even = rw append-nil
colon_loop_lem (b ∷ s) done i pos even =
    rw
      (
        colon_round i _ 0 0 _ done _ (ground arith),
        plain_round (suc i) _ 0 _ (((done ++ b':' ∷ []) ++ hex_digit (b / 16) ∷ [])) _
            (ground arith),
        colon_loop_lem s
            ((((done ++ b':' ∷ []) ++ hex_digit (b / 16) ∷ []) ++ hex_digit (b % 16) ∷ []))
            (suc (suc i)) (omega arith) (omega arith),
      )
      (simp append_assoc)

length-coloned : (s : Bytes) → length (coloned s) ≡ 3 * length s
unfolding coloned
length-coloned [] = refl
length-coloned (b ∷ s) = omega (arith, length-coloned s)

length-hex_encode : (s : Bytes) → length (hex_encode s) ≡ 2 * length s
unfolding hex_encode
length-hex_encode [] = refl
length-hex_encode (b ∷ s) = omega (arith, length-hex_encode s)

join-coloned :
    (b : ℕ) (s : Bytes) → join (map hex_byte (b ∷ s)) (codes ":") ≡ hex_byte b ++ coloned s
unfolding join coloned
join-coloned b [] = refl
join-coloned b (c ∷ s) = rw (join-coloned c s)

-- The loop from the start, on a buffer that the digits with their colons fill.
colon_loop_start :
    (b : ℕ) (s : Bytes)
    → colon_loop 0 0 (hex_encode (b ∷ s)) (replicate (suc (suc (length (coloned s)))) 0)
      ≡ some (hex_byte b ++ coloned s)
unfolding hex_encode
colon_loop_start b s = rw (
  plain_round 0 (hex_digit (b / 16)) 0 _ [] _ refl,
  plain_round 1 (hex_digit (b % 16)) 0 _ (hex_digit (b / 16) ∷ []) _ refl,
  colon_loop_lem s (hex_byte b) 2 (omega arith) (omega arith),
)

filled :
    (sum : Bytes)
    → length sum ≡ 16
    → colon_loop 0 0 (hex_encode sum) (replicate (length (hex_encode sum) + 15) 0)
      ≡ some (join (map hex_byte sum) (codes ":"))
filled [] h = absurd (omega arith)
filled (b ∷ s) h = rw (fits, join-coloned b s) (colon_loop_start b s)
  where
    fits : length (hex_encode (b ∷ s)) + 15 ≡ suc (suc (length (coloned s)))
    fits = omega (arith, length-hex_encode (b ∷ s), length-coloned s)

-- Where the sum has 16 bytes, as an MD5 sum has, the fingerprint is its bytes in hexadecimal with a
-- colon between each two, the buffer is exactly filled, and no write is out of range.
pub fingerprint_lem :
    (md5_sum : Bytes → Bytes) (key : Bytes)
    → length (md5_sum key) ≡ 16
    → fingerprint md5_sum key ≡ some (join (map hex_byte (md5_sum key)) (codes ":"))
unfolding fingerprint
fingerprint_lem md5_sum key h = filled (md5_sum key) h
