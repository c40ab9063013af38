-- ===== src/Frame/Bytes.antt =====
-- The bytes that `createWebsocketHeader` and `copyMasked` write, and how many.
use ezwebsocket.Prelude.{
  ℕ, zero, suc, ◌+◌, ◌*◌, ◌/◌, ◌%◌, ◌^◌, ◌<◌, ◌≤◌, bit_and, bit_or, arith, ◌≡◌, ◌∙◌,
}
use ezwebsocket.Prelude.{Bool, true, false, List, [], ◌∷◌, if◌then◌else◌, length}
use ezwebsocket.Prelude.{IsBytes, All-append}
use ezwebsocket.Prelude.Bits.{bit_and_low, bit_xor_cancel, bit_or_field, bit_or_comm}
use ezwebsocket.Frame.{
  Opcode, continuation, text, binary, disconnect, ping, pong, opcode_number, big_endian,
  length_field, create_websocket_header, byte_mask, copy_from, copy_masked, mask_at,
}
use ezwebsocket.Frame.Masking.{byte_mask-IsBytes, mask_at-lt}

big_endian-IsBytes : (rounds x : ℕ) → IsBytes (big_endian rounds x)
unfolding big_endian
big_endian-IsBytes zero x = tt
big_endian-IsBytes (suc i) x =
    (omega (arith, bit_and_low 8 (x / 2 ^ (i * 8))), big_endian-IsBytes i x)

length_field-IsBytes : (len : ℕ) → ((length_field len).0 < 128) × IsBytes (length_field len).1
unfolding length_field
length_field-IsBytes len = ground (arith, bit_and_low 8 len, big_endian-IsBytes 8 len)

first_byte-lt :
    (opcode : Opcode) (fin : Bool)
    → bit_or (if fin then 0x80 else 0x00) (bit_and (opcode_number opcode) 0x0F) < 256
first_byte-lt continuation true = omega arith
first_byte-lt continuation false = omega arith
first_byte-lt text true = omega arith
first_byte-lt text false = omega arith
first_byte-lt binary true = omega arith
first_byte-lt binary false = omega arith
first_byte-lt disconnect true = omega arith
first_byte-lt disconnect false = omega arith
first_byte-lt ping true = omega arith
first_byte-lt ping false = omega arith
first_byte-lt pong true = omega arith
first_byte-lt pong false = omega arith

or_top : (x : ℕ) → x < 128 → bit_or x 0x80 ≡ 128 + x
or_top x low = bit_or_comm 8 x 0x80 (omega arith) (omega arith) ∙ bit_or_field 7 1 x low

pub create_websocket_header-IsBytes :
    (opcode : Opcode) (fin masked : Bool) (mask len : ℕ)
    → IsBytes (create_websocket_header opcode fin masked mask len)
unfolding create_websocket_header
create_websocket_header-IsBytes opcode fin true mask len =
    let (low, extended) = length_field-IsBytes len in
    (
      first_byte-lt opcode fin,
      (
        omega (arith, or_top (length_field len).0 low),
        All-append (λ x. x < 256) (length_field len).1 (big_endian 4 mask) extended
            (big_endian-IsBytes 4 mask),
      ),
    )
create_websocket_header-IsBytes opcode fin false mask len =
    let (low, extended) = length_field-IsBytes len in
    (first_byte-lt opcode fin, (omega arith, extended))

copy_from-IsBytes :
    (mask : List ℕ) (k : ℕ) (xs : List ℕ)
    → IsBytes mask
    → IsBytes xs
    → IsBytes (copy_from mask k xs)
unfolding copy_from
copy_from-IsBytes mask k [] hm hx = tt
copy_from-IsBytes mask k (x ∷ xs) hm (x_lt, hx) = (
  (bit_xor_cancel 8 x (mask_at mask k) x_lt (mask_at-lt mask k hm)).0,
  copy_from-IsBytes mask ((k + 1) % 4) xs hm hx,
)

pub copy_masked-IsBytes : (mask : ℕ) (xs : List ℕ) → IsBytes xs → IsBytes (copy_masked mask xs)
unfolding copy_masked
copy_masked-IsBytes mask xs hx = copy_from-IsBytes (byte_mask mask) 0 xs (byte_mask-IsBytes mask) hx

-- A header takes 14 bytes at most, which is what `sendDataLowLevel` has room for.
pub length-create_websocket_header :
    (opcode : Opcode) (fin masked : Bool) (mask len : ℕ)
    → length (create_websocket_header opcode fin masked mask len) ≤ 14
unfolding create_websocket_header length_field big_endian
length-create_websocket_header opcode fin true mask len = ground arith
length-create_websocket_header opcode fin false mask len = ground arith

pub create_websocket_header_some :
    (opcode : Opcode) (fin masked : Bool) (mask len : ℕ)
    → 2 ≤ length (create_websocket_header opcode fin masked mask len)
unfolding create_websocket_header length_field big_endian
create_websocket_header_some opcode fin true mask len = ground arith
create_websocket_header_some opcode fin false mask len = ground arith
