-- ===== src/Message/Examples.antt =====
-- Frames and connections on which the theorems about the message handlers are used.
use ezwebsocket.Prelude.{◌≡◌, ◌↔◌, refl, arith, true, inl, Ensures, none, ◌⊎◌, ◌≤◌, ◌^◌, ◌-◌}
use ezwebsocket.Frame.{WsHeader, binary}
use ezwebsocket.Frame.Examples.{text_frame, text_header}
use ezwebsocket.Connection.{server, connected}
use ezwebsocket.Connection.Examples.{working, idle, idle-IsResting}
use ezwebsocket.Message.{check_close_code, incomplete, parse_message}
use ezwebsocket.Message.CloseCode.{IsSendable, check_close_code_iff}
use ezwebsocket.Message.Safety.{IsHandled}
use ezwebsocket.Message.Control.{parse_message-IsHandled}
use ezwebsocket.Message.Overflow.{parse_message_overflow}

check_close_code_iff_example : (check_close_code 1000 ≡ true) ↔ IsSendable 1000
check_close_code_iff_example = check_close_code_iff 1000

parse_message-IsHandled_example :
    Ensures
      (λ out. IsHandled (idle server connected) out × ((out.0 ≡ incomplete) ⊎ (7 ≤ 7)))
      (parse_message working (idle server connected) text_frame 7 text_header)
parse_message-IsHandled_example =
    parse_message-IsHandled working (idle server connected) text_frame 7 text_header
      (idle-IsResting server connected) (omega arith) (omega arith) (omega arith) (omega arith)
      (omega arith) (inl refl)

-- The header of a frame whose end is at 2 ^ 64 + 5.
abbrev wrapping_header : WsHeader
wrapping_header = record text_header { opcode = binary; payload_length = 2 ^ 64 - 1 }

parse_message_overflow_example :
    parse_message working (idle server connected) text_frame 7 wrapping_header ≡ none
parse_message_overflow_example =
    parse_message_overflow working (λ n size. refl) (idle server connected) text_frame 7
      wrapping_header refl refl refl (omega arith) (omega arith) (omega arith) (omega arith)
      (omega arith)
