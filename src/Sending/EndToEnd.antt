-- ===== src/Sending/EndToEnd.antt =====
-- `websocket_sendData` of one peer and `websocket_onMessage` of the other.
use ezwebsocket.Prelude.{ℕ, ◌+◌, ◌<◌, ◌^◌, ◌≡◌, refl, arith}
use ezwebsocket.Prelude.{
  Bool, true, false, List, ◌∷◌, ◌++◌, none, some, length, IsBytes, All-append, length-append,
}
use ezwebsocket.Prelude.{Ensures, Ensures-if, Ensures-weaken}
use ezwebsocket.Frame.{Opcode, create_websocket_header, copy_masked}
use ezwebsocket.Frame.Bytes.{
  create_websocket_header-IsBytes, length-create_websocket_header, copy_masked-IsBytes,
}
use ezwebsocket.Connection.{
  frame_of, opcode_for, connected, established, DataType, Connection, Env, is_client, is_server,
}
use ezwebsocket.Connection.Invariant.{IsResting}
use ezwebsocket.Connection.Send.{HasMemory, HasNetwork, send_data_low_level-Writes}
use ezwebsocket.Message.Delivery.{IsAllowed}
use ezwebsocket.Receive.{Timespec, on_frame}
use ezwebsocket.Receive.Delivery.{Looks, Delivers, length-frame, on_frame-Delivers}
use ezwebsocket.Sending.{is_connected, websocket_send_data}

pub frame-IsBytes :
    (opcode : Opcode) (fin masked : Bool) (mask : ℕ) (msg : List ℕ)
    → IsBytes msg
    → IsBytes (frame_of opcode fin masked mask msg)
frame-IsBytes opcode fin true mask msg hb =
    All-append (λ x. x < 256) (create_websocket_header opcode fin true mask (length msg))
      (copy_masked mask msg) (create_websocket_header-IsBytes opcode fin true mask (length msg))
      (copy_masked-IsBytes mask msg hb)
frame-IsBytes opcode fin false mask msg hb =
    All-append (λ x. x < 256) (create_websocket_header opcode fin false mask (length msg)) msg
      (create_websocket_header-IsBytes opcode fin false mask (length msg)) hb

pub frame_fits :
    (opcode : Opcode) (fin masked : Bool) (mask : ℕ) (msg rest : List ℕ)
    → length msg + length rest + 14 < 2 ^ 64
    → length (frame_of opcode fin masked mask msg ++ rest) < 2 ^ 64
frame_fits opcode fin masked mask msg rest small = omega (
  arith,
  length-append (frame_of opcode fin masked mask msg) rest,
  length-frame opcode fin masked mask msg,
  length-create_websocket_header opcode fin masked mask (length msg),
)

-- What `websocket_sendData` writes on a connected, established connection, where memory can be had
-- and `send` takes the whole buffer, is one frame; and when that frame, with any bytes behind it,
-- stands in the receive buffer of the other kind of peer, at rest with no payload stored, where
-- memory can be had, all fits a `size_t` and the callback leaves the connection alone, the
-- CONNECTED case of `websocket_onMessage` gives the callback the same type and the same bytes,
-- takes the frame and no more, and ends with no message begun. A text must be one that
-- `utf8_validate` answers OK.
pub websocket_send_data-delivered :
    (env env' : Env) (now : Timespec) (sender receiver : Connection) (type : DataType)
    (msg rest : List ℕ)
    → HasMemory env
    → HasNetwork env
    → HasMemory env'
    → Looks env'.on_message
    → sender.socket ≡ some established
    → sender.state ≡ connected
    → IsResting receiver
    → receiver.last_message.payload ≡ none
    → is_client sender ≡ is_server receiver
    → IsBytes msg
    → IsAllowed type msg
    → IsBytes rest
    → length msg + length rest + 14 < 2 ^ 64
    → Ensures
        (λ out.
          (out.0 ≡ true)
          × ((frame : List ℕ) × (out.1.sent ≡ frame ∷ sender.sent)
              × Ensures
                  (Delivers receiver type msg (length frame))
                  (on_frame env' now receiver (frame ++ rest) (length (frame ++ rest)))))
        (websocket_send_data env sender type msg)
unfolding websocket_send_data
websocket_send_data-delivered env env' now sender receiver type msg rest memory network memory'
      looks open_socket ready resting empty other hb allowed hrest small =
    Ensures-if (is_connected sender.state)
      (λ _.
        Ensures-weaken
          (send_data_low_level-Writes env memory network sender (opcode_for type) true
            (is_client sender) msg open_socket ready)
          λ out writes.
            let frame = frame_of (opcode_for type) true (is_client sender) writes.mask msg in
            let frame_bytes =
              All-append (λ x. x < 256) frame rest
                (frame-IsBytes (opcode_for type) true (is_client sender) writes.mask msg hb)
                hrest in
            (
              writes.all_sent,
              (
                frame,
                writes.written,
                on_frame-Delivers env' now receiver type (is_client sender) writes.mask msg rest _
                    memory' looks resting empty other hb allowed frame_bytes refl
                    (frame_fits (opcode_for type) true (is_client sender) writes.mask msg rest
                      small),
              ),
            ))
      (λ not_ready. absurd (ground arith))
