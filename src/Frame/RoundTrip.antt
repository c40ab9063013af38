-- ===== src/Frame/RoundTrip.antt =====
-- `createWebsocketHeader` and then `parseWebsocketHeader`.
use ezwebsocket.Prelude.{ℕ, ◌+◌, ◌^◌, ◌≤◌, ◌<◌, bit_and, bit_or, arith}
use ezwebsocket.Prelude.{◌≡◌, inl, inr, List, [], ◌∷◌, ◌++◌, append_assoc}
use ezwebsocket.Prelude.{Bool, true, false, some, Bool-cases}
use ezwebsocket.Prelude.{
  leb, ◌==◌, if◌then◌else◌, length, length-append, get_elem?, get_elem?-append,
}
use ezwebsocket.Prelude.Tables.{second_byte}
use ezwebsocket.Frame.Length.{read_length_16, read_length_64}
use ezwebsocket.Frame.{
  Opcode, continuation, text, binary, disconnect, ping, pong, opcode_number, WsHeader, parsed,
  read_length, read_mask, length_num_bytes, parse_mask, parse_lengths, parse_second_byte,
  parse_websocket_header, big_endian, length_field, create_websocket_header, byte_mask,
}

-- The header that a receiver should see.
abbrev pub decoded : Opcode → Bool → Bool → ℕ → ℕ → WsHeader
decoded opcode fin masked mask len = record {
  fin = fin;
  opcode = opcode;
  payload_length = len;
  masked = masked;
  mask = if masked then byte_mask mask else 0 ∷ 0 ∷ 0 ∷ 0 ∷ [];
  payload_start_offset = length (create_websocket_header opcode fin masked mask len);
}

-- What the code needs of the bytes behind the opcode to find an unmasked header.
parse_lengths_plain :
    (bytes : List ℕ) (n : ℕ) (fin : Bool) (opcode : Opcode) (byte1 count len : ℕ)
    → bit_and byte1 0x80 ≡ 0
    → length_num_bytes (bit_and byte1 0x7F) n ≡ some count
    → read_length bytes count 2 (if count == 0 then bit_and byte1 0x7F else 0) ≡ some len
    → parse_lengths bytes n fin opcode byte1
      ≡ some (
          parsed (record {
            fin = fin;
            opcode = opcode;
            payload_length = len;
            masked = false;
            mask = 0 ∷ 0 ∷ 0 ∷ 0 ∷ [];
            payload_start_offset = 2 + count;
          }))
unfolding parse_lengths parse_mask
parse_lengths_plain bytes n fin opcode byte1 count len top size value =
    rw (size, parse_lengths) (rw (value, top, parse_lengths))

parse_lengths_masked :
    (bytes : List ℕ) (n : ℕ) (fin : Bool) (opcode : Opcode) (byte1 count len : ℕ) (mask : List ℕ)
    → bit_and byte1 0x80 ≡ 0x80
    → length_num_bytes (bit_and byte1 0x7F) n ≡ some count
    → read_length bytes count 2 (if count == 0 then bit_and byte1 0x7F else 0) ≡ some len
    → 2 + count + 4 ≤ n
    → read_mask bytes 4 (2 + count) ≡ some mask
    → parse_lengths bytes n fin opcode byte1
      ≡ some (
          parsed (record {
            fin = fin;
            opcode = opcode;
            payload_length = len;
            masked = true;
            mask = mask;
            payload_start_offset = 2 + count + 4;
          }))
unfolding parse_lengths parse_mask
parse_lengths_masked bytes n fin opcode byte1 count len mask top size value fits keys =
    rw (size, parse_lengths) (rw (value, top, keys, parse_lengths) (ground arith))

-- The first byte: the reserved bits are clear, and the opcode and the fin bit are found again.
first_byte :
    (opcode : Opcode) (fin : Bool) (byte1 : ℕ) (rest : List ℕ) (n : ℕ)
    → 2 ≤ n
    → let byte0 = bit_or (if fin then 0x80 else 0x00) (bit_and (opcode_number opcode) 0x0F) in
      parse_websocket_header (byte0 ∷ byte1 ∷ rest) n
      ≡ parse_lengths (byte0 ∷ byte1 ∷ rest) n fin opcode byte1
unfolding parse_websocket_header parse_second_byte
first_byte continuation true byte1 rest n h = ground arith
first_byte continuation false byte1 rest n h = ground arith
first_byte text true byte1 rest n h = ground arith
first_byte text false byte1 rest n h = ground arith
first_byte binary true byte1 rest n h = ground arith
first_byte binary false byte1 rest n h = ground arith
first_byte disconnect true byte1 rest n h = ground arith
first_byte disconnect false byte1 rest n h = ground arith
first_byte ping true byte1 rest n h = ground arith
first_byte ping false byte1 rest n h = ground arith
first_byte pong true byte1 rest n h = ground arith
first_byte pong false byte1 rest n h = ground arith

-- The length bytes `extended` behind a second byte `byte1` stand for `len`.
record ReadsBack (len byte1 : ℕ) (extended : List ℕ) : Type 0 where
  low : byte1 < 128
  chosen : (n : ℕ) → 2 + length extended ≤ n → length_num_bytes byte1 n ≡ some (length extended)
  value :
      (b0 b1 : ℕ) (rest : List ℕ)
      → read_length
          (b0 ∷ b1 ∷ (extended ++ rest))
          (length extended)
          2
          (if length extended == 0 then byte1 else 0)
        ≡ some len

length_field-ReadsBack :
    (len : ℕ) → len < 2 ^ 64 → ReadsBack len (length_field len).0 (length_field len).1
unfolding length_field
length_field-ReadsBack len small = elim (Bool-cases (leb len 125)) [
  | inl short ↦ rw short (record {
    low = ground arith;
    chosen = λ n h. unfold length_num_bytes in ground arith;
    value = λ b0 b1 rest. unfold read_length in ground arith;
  })
  | inr long ↦ elim (Bool-cases (leb len 0xFFFF)) [
    | inl medium ↦
        rw (long, medium)
          (record {
            low = omega arith;
            chosen = λ n h. unfold length_num_bytes in ground arith;
            value = λ b0 b1 rest. read_length_16 b0 b1 len rest (ground arith);
          })
    | inr large ↦
        rw (long, large)
          (record {
            low = omega arith;
            chosen = λ n h. unfold length_num_bytes big_endian in ground arith;
            value = λ b0 b1 rest. unfold big_endian in read_length_64 b0 b1 len rest small;
          })
  ]
]

read_mask_lem :
    (b0 b1 mask : ℕ) (extended rest : List ℕ)
    → read_mask (b0 ∷ b1 ∷ (extended ++ (big_endian 4 mask ++ rest))) 4 (2 + length extended)
      ≡ some (byte_mask mask)
unfolding read_mask big_endian byte_mask
read_mask_lem b0 b1 mask extended rest = rw (
  at_index (2 + length extended) 0 (omega arith),
  at_index (2 + length extended + 1) 1 (omega arith),
  at_index (2 + length extended + 1 + 1) 2 (omega arith),
  at_index (2 + length extended + 1 + 1 + 1) 3 (omega arith),
)
  where
    keys : List ℕ
    keys = big_endian 4 mask ++ rest

    at_index :
        (i j : ℕ)
        → i ≡ 2 + length extended + j
        → get_elem? (b0 ∷ b1 ∷ (extended ++ keys)) i ≡ get_elem? keys j
    at_index i j e = get_elem?-append (b0 ∷ b1 ∷ extended) keys i j (omega arith)

-- Behind a header that `createWebsocketHeader` wrote, whatever follows, `parseWebsocketHeader` finds
-- exactly its fields, as soon as all its bytes have been received.
pub parse-create :
    (opcode : Opcode) (fin masked : Bool) (mask len : ℕ) (rest : List ℕ) (n : ℕ)
    → len < 2 ^ 64
    → length (create_websocket_header opcode fin masked mask len) ≤ n
    → parse_websocket_header (create_websocket_header opcode fin masked mask len ++ rest) n
      ≡ some (parsed (decoded opcode fin masked mask len))
unfolding create_websocket_header
parse-create opcode fin true mask len rest n small fits =
    let byte0 : ℕ = bit_or (if fin then 0x80 else 0x00) (bit_and (opcode_number opcode) 0x0F) in
    let byte1 : ℕ = (length_field len).0 in
    let extended : List ℕ = (length_field len).1 in
    let keys : List ℕ = big_endian 4 mask ++ rest in
    let back : ReadsBack len byte1 extended = length_field-ReadsBack len small in
    let bits = second_byte byte1 back.low in
    let size : length (extended ++ big_endian 4 mask) ≡ length extended + 4 =
      unfold big_endian in length-append extended (big_endian 4 mask) in
    rw
      (
        append_assoc extended (big_endian 4 mask) rest,
        first_byte opcode fin (bit_or byte1 0x80) (extended ++ keys) n (omega arith),
        parse_lengths_masked (byte0 ∷ bit_or byte1 0x80 ∷ (extended ++ keys)) n fin opcode
            (bit_or byte1 0x80) (length extended) len (byte_mask mask) bits.3
            (rw bits.2 (back.chosen n (omega arith)))
            (rw bits.2 (back.value byte0 (bit_or byte1 0x80) keys)) (omega arith)
            (read_mask_lem byte0 (bit_or byte1 0x80) mask extended rest),
      )
      (ground arith)
parse-create opcode fin false mask len rest n small fits =
    let byte0 : ℕ = bit_or (if fin then 0x80 else 0x00) (bit_and (opcode_number opcode) 0x0F) in
    let byte1 : ℕ = (length_field len).0 in
    let extended : List ℕ = (length_field len).1 in
    let back : ReadsBack len byte1 extended = length_field-ReadsBack len small in
    let bits = second_byte byte1 back.low in
    rw
      (
        first_byte opcode fin byte1 (extended ++ rest) n (omega arith),
        parse_lengths_plain (byte0 ∷ byte1 ∷ (extended ++ rest)) n fin opcode byte1
            (length extended) len bits.1 (rw bits.0 (back.chosen n (omega arith)))
            (rw bits.0 (back.value byte0 byte1 rest)),
      )
      (ground arith)
