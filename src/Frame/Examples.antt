-- ===== src/Frame/Examples.antt =====
-- Frames on which the theorems about the frame header are used.
use ezwebsocket.Prelude.{ℕ, ◌≡◌, refl, arith, true, List, [], ◌∷◌, ◌++◌, some}
use ezwebsocket.Frame.{
  text, binary, WsHeader, HeaderResult, parsed, parse_websocket_header, parse_second_byte,
  parse_lengths, parse_mask, length_num_bytes, read_length, read_mask, create_websocket_header,
  length_field, big_endian, copy_masked, byte_mask, read_payload,
}
use ezwebsocket.Frame.RoundTrip.{decoded, parse-create}
use ezwebsocket.Frame.Bounds.{FitsResult, parse_bounds}
use ezwebsocket.Frame.Masking.{read_payload-copy_masked}

-- A masked text frame with one byte of payload.
abbrev pub text_frame : List ℕ
text_frame = 0x81 ∷ 0x81 ∷ 1 ∷ 2 ∷ 3 ∷ 4 ∷ 0x40 ∷ []

abbrev pub text_header : WsHeader
text_header = record {
  fin = true;
  opcode = text;
  payload_length = 1;
  masked = true;
  mask = 1 ∷ 2 ∷ 3 ∷ 4 ∷ [];
  payload_start_offset = 6;
}

pub text_frame-parse : parse_websocket_header text_frame 7 ≡ some (parsed text_header)
unfolding parse_websocket_header parse_second_byte parse_lengths parse_mask read_length read_mask
    length_num_bytes
text_frame-parse = refl

parse-create_example :
    parse_websocket_header (create_websocket_header binary true true 0x01020304 300 ++ 72 ∷ []) 11
    ≡ some (parsed (decoded binary true true 0x01020304 300))
unfolding create_websocket_header length_field big_endian
parse-create_example =
    parse-create binary true true 0x01020304 300 (72 ∷ []) 11 (omega arith) (omega arith)

parse_bounds_example :
    (result : HeaderResult) × (parse_websocket_header text_frame 7 ≡ some result)
    × FitsResult 7 result
parse_bounds_example = parse_bounds text_frame 7 (omega arith) (omega arith) (omega arith)

read_payload-copy_masked_example :
    read_payload (9 ∷ 9 ∷ 9 ∷ 9 ∷ 9 ∷ 9 ∷ (copy_masked 0x01020304 (7 ∷ []) ++ 5 ∷ [])) text_header
    ≡ some (7 ∷ [])
unfolding byte_mask
read_payload-copy_masked_example =
    read_payload-copy_masked text_header 0x01020304 (9 ∷ 9 ∷ 9 ∷ 9 ∷ 9 ∷ 9 ∷ []) (7 ∷ []) (5 ∷ [])
      (omega arith) refl refl refl refl
