-- ===== src/Frame/Bounds.antt =====
-- What `parseWebsocketHeader` reads, and what it promises of a header that it accepts.
use ezwebsocket.Prelude.{ℕ, zero, suc, ◌+◌, ◌*◌, ◌%◌, ◌^◌, ◌≤◌, ◌<◌, bit_and, bit_or, arith}
use ezwebsocket.Prelude.{◌≡◌, refl, List, [], ◌∷◌, Option, some, Option-cases, inl, inr}
use ezwebsocket.Prelude.{Bool, true, false, Bool-cases, not, ◌>>=◌, ltb, ◌==◌, if◌then◌else◌}
use ezwebsocket.Prelude.{length, get_elem?-All, IsBytes}
use ezwebsocket.Prelude.Bits.{bit_or_field, bit_and_low}
use ezwebsocket.Frame.{
  Opcode, WsHeader, HeaderResult, malformed, too_short, parsed, read_length, read_mask,
  length_num_bytes, parse_mask, parse_lengths, parse_second_byte, parse_websocket_header, opcode_of,
}

-- A header that fits what was received, with a length in range and a mask of four bytes.
pub record FitsHeader (len : ℕ) (header : WsHeader) : Type 0 where
  pub offset_fits : header.payload_start_offset ≤ len
  pub offset_small : header.payload_start_offset ≤ 14
  pub length_small : header.payload_length < 2 ^ 64
  pub mask_size : length header.mask ≡ 4
  pub mask_bytes : IsBytes header.mask

abbrev pub FitsResult : ℕ → HeaderResult → Type 0
FitsResult len malformed = Unit
FitsResult len too_short = Unit
FitsResult len (parsed header) = FitsHeader len header

abbrev Returns {ℓ} : {A : Type 0} → (A → Type ℓ) → Option A → Type ℓ
Returns {A} P out = (a : A) × (out ≡ some a) × P a

shift_in-lt : (acc byte : ℕ) → byte < 256 → bit_or (acc * 2 ^ 8 % 2 ^ 64) byte < 2 ^ 64
shift_in-lt acc byte h = ground (arith, bit_or_field 8 (acc % 2 ^ 56) byte, clear)
  where
    clear : acc * 2 ^ 8 % 2 ^ 64 ≡ acc % 2 ^ 56 * 2 ^ 8
    clear = omega arith

read_length_bounds :
    (bytes : List ℕ) (rounds i acc : ℕ)
    → IsBytes bytes
    → i + rounds ≤ length bytes
    → acc < 2 ^ 64
    → Returns (λ x. x < 2 ^ 64) (read_length bytes rounds i acc)
unfolding read_length
read_length_bounds bytes zero i acc hb fits small = (acc, refl, small)
read_length_bounds bytes (suc rounds) i acc hb fits small =
    let (byte, here, byte_lt) = get_elem?-All (λ x. x < 256) bytes i hb (omega arith) in
    rw here (
      read_length_bounds bytes rounds (i + 1) (bit_or (acc * 2 ^ 8 % 2 ^ 64) byte) hb (omega arith)
        (shift_in-lt acc byte byte_lt))

read_mask_bounds :
    (bytes : List ℕ) (rounds i : ℕ)
    → IsBytes bytes
    → i + rounds ≤ length bytes
    → Returns (λ mask. (length mask ≡ rounds) × IsBytes mask) (read_mask bytes rounds i)
unfolding read_mask
read_mask_bounds bytes zero i hb fits = ([], refl, (refl, tt))
read_mask_bounds bytes (suc rounds) i hb fits =
    let (byte, here, byte_lt) = get_elem?-All (λ x. x < 256) bytes i hb (omega arith) in
    let (mask, rest, (size, mask_bytes)) = read_mask_bounds bytes rounds (i + 1) hb (omega arith) in
    (byte ∷ mask, rw (here, rest), (omega arith, (byte_lt, mask_bytes)))

length_num_bytes_fits :
    (low7 len count : ℕ)
    → length_num_bytes low7 len ≡ some count
    → 2 ≤ len
    → (2 + count ≤ len) × (count ≤ 8)
unfolding length_num_bytes
length_num_bytes_fits low7 len count h two = ground arith

parse_mask_bounds :
    (bytes : List ℕ) (len : ℕ) (fin : Bool) (opcode : Opcode) (masked : Bool) (count value : ℕ)
    → IsBytes bytes
    → len ≤ length bytes
    → 2 + count ≤ len
    → count ≤ 8
    → value < 2 ^ 64
    → Returns (FitsResult len) (parse_mask bytes len fin opcode masked count value)
unfolding parse_mask
parse_mask_bounds bytes len fin opcode false count value hb fits room short small =
    (_, refl, omega arith)
parse_mask_bounds bytes len fin opcode true count value hb fits room short small =
    elim (Bool-cases (ltb len (2 + count + 4))) [
      | inl more ↦ rw more (too_short, refl, tt)
      | inr enough ↦
          let (mask, read, facts) = read_mask_bounds bytes 4 (2 + count) hb (ground arith) in
          rw (enough, read) (_, refl, ground arith)
    ]

parse_lengths_bounds :
    (bytes : List ℕ) (len : ℕ) (fin : Bool) (opcode : Opcode) (byte1 : ℕ)
    → IsBytes bytes
    → len ≤ length bytes
    → 2 ≤ len
    → Returns (FitsResult len) (parse_lengths bytes len fin opcode byte1)
unfolding parse_lengths
parse_lengths_bounds bytes len fin opcode byte1 hb fits two =
    elim (Option-cases (length_num_bytes (bit_and byte1 0x7F) len)) [
      | inl short ↦ rw (short, parse_lengths) (too_short, refl, tt)
      | inr (count, size) ↦ rw (size, parse_lengths) (with_count count size)
    ]
  where
    start : (b : Bool) → (if b then bit_and byte1 0x7F else 0) < 2 ^ 64
    start true = omega (arith, bit_and_low 7 byte1)
    start false = omega arith

    with_count :
        (count : ℕ)
        → length_num_bytes (bit_and byte1 0x7F) len ≡ some count
        → Returns (FitsResult len) (
            read_length bytes count 2 (if count == 0 then bit_and byte1 0x7F else 0)
            >>= parse_mask bytes len fin opcode (not (bit_and byte1 0x80 == 0)) count)
    with_count count size =
        let bound = length_num_bytes_fits (bit_and byte1 0x7F) len count size two in
        let (value, read, value_lt) =
          read_length_bounds bytes count 2 (if count == 0 then bit_and byte1 0x7F else 0) hb
            (omega arith) (start (count == 0)) in
        rw read (
          parse_mask_bounds bytes len fin opcode (not (bit_and byte1 0x80 == 0)) count value hb fits
            bound.0 bound.1 value_lt)

parse_second_byte_bounds :
    (bytes : List ℕ) (len : ℕ) (fin : Bool) (opcode : Opcode)
    → IsBytes bytes
    → len ≤ length bytes
    → 2 ≤ length bytes
    → Returns (FitsResult len) (parse_second_byte bytes len fin opcode)
unfolding parse_second_byte
parse_second_byte_bounds bytes len fin opcode hb fits room =
    let (byte1, read, lt) = get_elem?-All (λ x. x < 256) bytes 1 hb (omega arith) in
    elim (Bool-cases (ltb len 2)) [
      | inl short ↦ rw (read, short) (too_short, refl, tt)
      | inr enough ↦
          rw (read, enough) (parse_lengths_bounds bytes len fin opcode byte1 hb fits (ground arith))
    ]

-- On a receive buffer of at least two bytes, `parseWebsocketHeader` reads inside the buffer, and a
-- header that it accepts ends within the bytes received and within 14 bytes, has a length below
-- 2 ^ 64 and a mask of four bytes.
pub parse_bounds :
    (bytes : List ℕ) (len : ℕ)
    → IsBytes bytes
    → len ≤ length bytes
    → 2 ≤ length bytes
    → (result : HeaderResult) × (parse_websocket_header bytes len ≡ some result)
      × FitsResult len result
unfolding parse_websocket_header
parse_bounds [] len hb fits room = absurd (omega arith)
parse_bounds (byte0 ∷ bytes) len hb fits room = elim (Bool-cases (bit_and byte0 0x70 == 0)) [
  | inr reserved ↦ rw reserved (malformed, refl, tt)
  | inl clear ↦ elim (Option-cases (opcode_of (bit_and byte0 0x0F))) [
    | inl unknown ↦ rw (clear, unknown) (malformed, refl, tt)
    | inr (opcode, known) ↦
        rw (clear, known)
          (parse_second_byte_bounds (byte0 ∷ bytes) len (not (bit_and byte0 0x80 == 0)) opcode hb
            fits room)
  ]
]
