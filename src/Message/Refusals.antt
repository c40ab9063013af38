-- ===== src/Message/Refusals.antt =====
-- What a connection answers to data frames that the abstract receiver refuses.
pub mod First
pub mod Next
pub mod Parts
use ezwebsocket.Prelude.{
  ℕ, ◌+◌, ◌<◌, ◌^◌, ◌≡◌, ◌≢◌, refl, ap, ap₂, sym, subst, ◌∙◌, if◌then◌else◌, ◌⊎◌, inl, inr, arith,
}
use ezwebsocket.Prelude.{
  Bool, true, false, not, ◌&&◌, List, [], ◌∷◌, ◌++◌, Option, none, some, length, same, drop-append,
}
use ezwebsocket.Prelude.{Ensures, Ensures-both, Ensures-if, Ensures-bind, Ensures-weaken}
use ezwebsocket.Frame.{disconnect, WsHeader, read_payload}
use ezwebsocket.Utf8.{utf8_validate}
use ezwebsocket.Utf8.Fragments.{utf8_validate-append}
use ezwebsocket.Connection.{
  DataType, text_data, binary_data, Connection, Env, Block, is_client, is_server, contents_of,
  opcode_for, release, frame_of, disconnected, disconnect_request,
}
use ezwebsocket.Connection.Invariant.{IsResting, OwnsBlock}
use ezwebsocket.Connection.Send.{HasMemory, HasNetwork, release-owned, release-owns}
use ezwebsocket.Connection.Close.{ClosesWith, code_bytes}
use ezwebsocket.Message.{
  MsgState, error, bad_text, close_protocol_error, close_invalid_data, finish_text, begin_message,
  start_message, handle_first_message, add_length, finish_cont, handle_cont_message, handle_message,
}
use ezwebsocket.Message.Safety.{IsReceived, IsKept-refl, store_first-Stored}
use ezwebsocket.Message.Cont.{StoredCont, store_cont-Stored}
use ezwebsocket.Message.Delivery.{store_first-stores, data_type-opcode}
use ezwebsocket.Message.Replies.{IsOpen, close_with_released, client_same}
use ezwebsocket.Message.Assembly.{
  Part, first, next, Pending, part_opcode, is_last, payload_of, accepts, extend, assemble,
  Represents, HasPart, IsValidated,
}
use ezwebsocket.Message.Assembly.Parts.{handle_message_first, handle_message_next}
use ezwebsocket.Message.Assembly.Next.{store_cont-StoresMore, length-contents}

-- The frame is refused: the connection closes with the code.
abbrev pub Refuses : ℕ → Connection → MsgState × Connection → Type 0
Refuses code c out = (out.0 ≡ error) × ClosesWith code c out.1

-- The closing code of a frame that the abstract receiver refuses: invalid data, or a protocol error.
abbrev pub refusal_code : Pending → Part → ℕ
refusal_code none (first type fin msg) = close_invalid_data
refusal_code none (next fin msg) = close_protocol_error
refusal_code (some message) (first type fin msg) = close_protocol_error
refusal_code (some message) (next fin msg) = close_invalid_data

-- The code does not see a message of which no byte is kept, nor look at an empty continuation.
abbrev pub IsSeen : Pending → Part → Type 0
IsSeen none part = Unit
IsSeen (some message) (first type fin msg) = message.1 ≢ []
IsSeen (some message) (next fin msg) = msg ≢ []
