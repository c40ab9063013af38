-- ===== src/Frame/Length.antt =====
-- The extended payload length: the bytes written by `createWebsocketHeader` and read back.
use ezwebsocket.Prelude.{ℕ, ◌*◌, ◌/◌, ◌%◌, ◌^◌, ◌<◌, bit_and, bit_or, arith}
use ezwebsocket.Prelude.{◌≡◌, ap, List, ◌∷◌, ◌++◌, some}
use ezwebsocket.Prelude.Bits.{bit_or_field, bit_and_low}
use ezwebsocket.Frame.{read_length, big_endian}

-- One round of `payloadLength <<= 8; payloadLength |= data[2 + i];` on the digits of a `size_t`.
next_digit :
    (acc y : ℕ) → acc ≡ y / 256 → y < 2 ^ 64 → bit_or (acc * 2 ^ 8 % 2 ^ 64) (bit_and y 0xFF) ≡ y
next_digit acc y high small = ground (arith, bit_and_low 8 y, bit_or_field 8 acc (y % 256))

pub read_length_16 :
    (b0 b1 x : ℕ) (rest : List ℕ)
    → x < 2 ^ 16
    → read_length (b0 ∷ b1 ∷ x / 2 ^ 8 % 256 ∷ bit_and x 0xFF ∷ rest) 2 2 0 ≡ some x
unfolding read_length
read_length_16 b0 b1 x rest h = ground (
  arith,
  bit_or_field 8 0 (x / 2 ^ 8 % 256),
  next_digit (x / 2 ^ 8 % 256) x (omega arith) (omega arith),
)

pub read_length_64 :
    (b0 b1 x : ℕ) (rest : List ℕ)
    → x < 2 ^ 64
    → read_length (b0 ∷ b1 ∷ (big_endian 8 x ++ rest)) 8 2 0 ≡ some x
unfolding read_length big_endian
read_length_64 b0 b1 x rest h =
    rw
      (
        next_digit 0 (x / 2 ^ 56) (omega arith) (omega arith),
        next_digit (x / 2 ^ 56) (x / 2 ^ 48) (omega arith) (omega arith),
        next_digit (x / 2 ^ 48) (x / 2 ^ 40) (omega arith) (omega arith),
        next_digit (x / 2 ^ 40) (x / 2 ^ 32) (omega arith) (omega arith),
        next_digit (x / 2 ^ 32) (x / 2 ^ 24) (omega arith) (omega arith),
        next_digit (x / 2 ^ 24) (x / 2 ^ 16) (omega arith) (omega arith),
        next_digit (x / 2 ^ 16) (x / 2 ^ 8) (omega arith) (omega arith),
        next_digit (x / 2 ^ 8) (x / 2 ^ 0) (omega arith) (omega arith),
      )
      (ap some (omega arith))
