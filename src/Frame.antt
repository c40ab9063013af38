-- ===== src/Frame.antt =====
-- The websocket frame header of lib/ezwebsocket.c: `parseWebsocketHeader`, `createWebsocketHeader`,
-- `copyMasked` and the loops that take the mask off again. A buffer is the list of the bytes that
-- may be read; a read past its end is `none`, which C leaves undefined.
pub mod Masking
pub mod Length
pub mod RoundTrip
pub mod Bounds
pub mod Bytes
pub mod Examples
use ezwebsocket.Prelude.{ℕ, zero, suc, ◌+◌, ◌-◌, ◌*◌, ◌/◌, ◌%◌, ◌^◌, bit_and, bit_or, bit_xor}
use ezwebsocket.Prelude.{Bool, true, false, not, List, [], ◌∷◌, ◌++◌, Option, none, some}
use ezwebsocket.Prelude.{leb, ltb, ◌==◌, if◌then◌else◌, ◌>>=◌, get_elem?, length}

-- `enum ws_opcode`.
pub data Opcode : Type 0 where
  continuation text binary disconnect ping pong : Opcode

abbrev pub opcode_number : Opcode → ℕ
opcode_number continuation = 0x00
opcode_number text = 0x01
opcode_number binary = 0x02
opcode_number disconnect = 0x08
opcode_number ping = 0x09
opcode_number pong = 0x0A

-- The `switch` on the four bits read from the wire; `none` is its default.
abbrev pub opcode_of : ℕ → Option Opcode
opcode_of n =
    if n == 0x00
    then some continuation
    else if n == 0x01
    then some text
    else if n == 0x02
    then some binary
    else if n == 0x09
    then some ping
    else if n == 0x0A
    then some pong
    else if n == 0x08
    then some disconnect
    else none

abbrev pub max_default_payload_length : ℕ
max_default_payload_length = 125

abbrev pub extended_16bit_payload_length : ℕ
extended_16bit_payload_length = 126

abbrev pub extended_64bit_payload_length : ℕ
extended_64bit_payload_length = 127

-- `struct ws_header`. The mask of a header that is not masked is four zeros, as its only caller
-- clears the struct first.
pub record WsHeader : Type 0 where
  pub fin : Bool
  pub opcode : Opcode
  pub payload_length : ℕ
  pub masked : Bool
  pub mask : List ℕ
  pub payload_start_offset : ℕ

-- What `parseWebsocketHeader` returns: -1, 0, or 1 with the header written.
pub data HeaderResult : Type 0 where
  malformed too_short : HeaderResult
  parsed : WsHeader → HeaderResult

-- The loop that shifts the extended length in, `rounds` bytes from index `i` on, in a `size_t`.
pub read_length : List ℕ → ℕ → ℕ → ℕ → Option ℕ
read_length bytes zero i acc = some acc
read_length bytes (suc rounds) i acc = do
  byte ← get_elem? bytes i
  read_length bytes rounds (i + 1) (bit_or (acc * 2 ^ 8 % 2 ^ 64) byte)

-- The loop that copies the mask, `rounds` bytes from index `i` on.
pub read_mask : List ℕ → ℕ → ℕ → Option (List ℕ)
read_mask bytes zero i = some []
read_mask bytes (suc rounds) i = do
  byte ← get_elem? bytes i
  rest ← read_mask bytes rounds (i + 1)
  some (byte ∷ rest)

-- The choice of `lengthNumBytes`: none where the bytes received do not reach its end.
pub length_num_bytes : ℕ → ℕ → Option ℕ
length_num_bytes low7 len =
    if leb low7 max_default_payload_length
    then some 0
    else if low7 == extended_16bit_payload_length
    then (if ltb len 4 then none else some 2)
    else (if ltb len 10 then none else some 8)

-- The end of `parseWebsocketHeader`: the mask, and the offset of the payload.
pub parse_mask : List ℕ → ℕ → Bool → Opcode → Bool → ℕ → ℕ → Option HeaderResult
parse_mask bytes len fin opcode masked count payload_length =
    if masked
    then (if ltb len (2 + count + 4) then some too_short else (do
      mask ← read_mask bytes 4 (2 + count)
      some (
          parsed (record {
            fin = fin;
            opcode = opcode;
            payload_length = payload_length;
            masked = true;
            mask = mask;
            payload_start_offset = 2 + count + 4;
          }))))
    else some (
        parsed (record {
          fin = fin;
          opcode = opcode;
          payload_length = payload_length;
          masked = false;
          mask = 0 ∷ 0 ∷ 0 ∷ 0 ∷ [];
          payload_start_offset = 2 + count;
        }))

-- The part of `parseWebsocketHeader` from the decoding of the payload length on.
pub parse_lengths : List ℕ → ℕ → Bool → Opcode → ℕ → Option HeaderResult
parse_lengths bytes len fin opcode byte1 =
    let low7 = bit_and byte1 0x7F in
    elim (length_num_bytes low7 len) [
      | none ↦ some too_short
      | some count ↦ (do
        payload_length ← read_length bytes count 2 (if count == 0 then low7 else 0)
        parse_mask bytes len fin opcode (not (bit_and byte1 0x80 == 0)) count payload_length)
    ]

-- The middle of `parseWebsocketHeader`: the second byte is read before the length is tested.
pub parse_second_byte : List ℕ → ℕ → Bool → Opcode → Option HeaderResult
parse_second_byte bytes len fin opcode = do
  byte1 ← get_elem? bytes 1
  if ltb len 2 then some too_short else parse_lengths bytes len fin opcode byte1

-- `parseWebsocketHeader`, from the reserved bits and the opcode on.
pub parse_websocket_header : List ℕ → ℕ → Option HeaderResult
parse_websocket_header bytes len = do
  byte0 ← get_elem? bytes 0
  if not (bit_and byte0 0x70 == 0) then some malformed else elim (opcode_of (bit_and byte0 0x0F)) [
    | none ↦ some malformed
    | some opcode ↦ parse_second_byte bytes len (not (bit_and byte0 0x80 == 0)) opcode
  ]

-- `for (i = rounds - 1; i > -1; i--) buffer[cnt++] = (x >> (i * 8)) & 0xFF;`
pub big_endian : ℕ → ℕ → List ℕ
big_endian zero x = []
big_endian (suc i) x = bit_and (x / 2 ^ (i * 8)) 0xFF ∷ big_endian i x

-- The second byte and the extended length, before the mask bit is set.
pub length_field : ℕ → ℕ × List ℕ
length_field len =
    if leb len max_default_payload_length
    then (len % 256, [])
    else if leb len 0xFFFF
    then (extended_16bit_payload_length, len / 2 ^ 8 % 256 ∷ bit_and len 0xFF ∷ [])
    else (extended_64bit_payload_length, big_endian 8 len)

-- `createWebsocketHeader`: the bytes written, in order; their number is what it returns.
pub create_websocket_header : Opcode → Bool → Bool → ℕ → ℕ → List ℕ
create_websocket_header opcode fin masked mask len =
    let byte0 = bit_or (if fin then 0x80 else 0x00) (bit_and (opcode_number opcode) 0x0F) in
    let (byte1, extended) = length_field len in
    if masked
    then byte0 ∷ bit_or byte1 0x80 ∷ (extended ++ big_endian 4 mask)
    else byte0 ∷ byte1 ∷ extended

-- The bytes of the mask in `copyMasked`, and the one that `maskIdx` selects.
pub byte_mask : ℕ → List ℕ
byte_mask mask =
    bit_and (mask / 2 ^ 24) 0xFF
    ∷ bit_and (mask / 2 ^ 16) 0xFF
    ∷ bit_and (mask / 2 ^ 8) 0xFF
    ∷ bit_and (mask / 2 ^ 0) 0xFF
    ∷ []

abbrev pub mask_at : List ℕ → ℕ → ℕ
mask_at mask i = elim (get_elem? mask i) [ none ↦ 0 | some byte ↦ byte ]

-- The loop of `copyMasked` over the bytes left, with `maskIdx`.
pub copy_from : List ℕ → ℕ → List ℕ → List ℕ
copy_from mask mask_idx [] = []
copy_from mask mask_idx (byte ∷ rest) =
    bit_xor byte (mask_at mask mask_idx) ∷ copy_from mask ((mask_idx + 1) % 4) rest

-- `copyMasked` on the whole source; `len` is its length at the only call.
pub copy_masked : ℕ → List ℕ → List ℕ
copy_masked mask from = copy_from (byte_mask mask) 0 from

-- `for (i = ...; i < payloadLength; i++) to[i] = data[payloadStartOffset + i] ^ mask[i % 4];`
-- with `rounds` bytes left to copy.
pub unmask_from : List ℕ → List ℕ → ℕ → ℕ → ℕ → Option (List ℕ)
unmask_from bytes mask offset zero i = some []
unmask_from bytes mask offset (suc rounds) i = do
  byte ← get_elem? bytes (offset + i)
  rest ← unmask_from bytes mask offset rounds (i + 1)
  some (bit_xor byte (mask_at mask (i % 4)) ∷ rest)

-- `memcpy(to, &data[offset], count)`.
pub copy_bytes : List ℕ → ℕ → ℕ → Option (List ℕ)
copy_bytes bytes offset zero = some []
copy_bytes bytes offset (suc count) = do
  byte ← get_elem? bytes offset
  rest ← copy_bytes bytes (offset + 1) count
  some (byte ∷ rest)

-- The payload of a frame, as every handler takes it out of the receive buffer.
pub read_payload : List ℕ → WsHeader → Option (List ℕ)
read_payload bytes header =
    if header.masked
    then unmask_from bytes header.mask header.payload_start_offset header.payload_length 0
    else copy_bytes bytes header.payload_start_offset header.payload_length
