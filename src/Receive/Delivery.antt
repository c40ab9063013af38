-- ===== src/Receive/Delivery.antt =====
-- A whole message in one frame, from the receive buffer to the callback.
use ezwebsocket.Prelude.{ℕ, ◌+◌, ◌<◌, ◌^◌, ◌≡◌, refl, if◌then◌else◌, arith}
use ezwebsocket.Prelude.{
  Bool, true, false, List, ◌∷◌, ◌++◌, Option, none, some, length, IsBytes, length-append,
  append_assoc,
}
use ezwebsocket.Prelude.{Ensures, Ensures-both, Ensures-bind, Ensures-some}
use ezwebsocket.Frame.{
  Opcode, WsHeader, parsed, parse_websocket_header, create_websocket_header, copy_masked,
  read_payload,
}
use ezwebsocket.Frame.RoundTrip.{decoded, parse-create}
use ezwebsocket.Frame.Masking.{
  read_payload-copy_masked, read_payload_plain, length-copy_masked, byte_mask-IsBytes,
}
use ezwebsocket.Connection.{LastMessage, DataType, Connection, Env, is_server, contents_of}
use ezwebsocket.Connection.Invariant.{IsOwned, IsResting}
use ezwebsocket.Connection.Send.{HasMemory}
use ezwebsocket.Message.{MsgState, error, incomplete, no_user_data, user_data}
use ezwebsocket.Message.Delivery.{IsAllowed, IsComplete, parse_message-completes}
use ezwebsocket.Message.Control.{parse_message-IsHandled}
use ezwebsocket.Connection.{frame_of, opcode_for}
use ezwebsocket.Message.Safety.{IsHandled}
use ezwebsocket.Receive.{
  Timespec, unref_if_set, call_back, call_on_message, after_message, on_header, on_frame,
}

pub length-frame :
    (opcode : Opcode) (fin masked : Bool) (mask : ℕ) (msg : List ℕ)
    → length (frame_of opcode fin masked mask msg)
      ≡ (decoded opcode fin masked mask (length msg)).payload_start_offset + length msg
length-frame opcode fin true mask msg = omega (
  arith,
  length-append (create_websocket_header opcode fin true mask (length msg)) (copy_masked mask msg),
  length-copy_masked mask msg,
)
length-frame opcode fin false mask msg =
    length-append (create_websocket_header opcode fin false mask (length msg)) msg

pub read_payload-frame :
    (opcode : Opcode) (fin masked : Bool) (mask : ℕ) (msg rest : List ℕ)
    → IsBytes msg
    → read_payload
        (frame_of opcode fin masked mask msg ++ rest)
        (decoded opcode fin masked mask (length msg))
      ≡ some msg
read_payload-frame opcode fin true mask msg rest hb =
    rw
      (append_assoc (create_websocket_header opcode fin true mask (length msg))
        (copy_masked mask msg) rest)
      (read_payload-copy_masked (decoded opcode fin true mask (length msg)) mask
        (create_websocket_header opcode fin true mask (length msg)) msg rest hb refl refl refl refl)
read_payload-frame opcode fin false mask msg rest hb =
    rw (append_assoc (create_websocket_header opcode fin false mask (length msg)) msg rest) (
      read_payload_plain (decoded opcode fin false mask (length msg))
        (create_websocket_header opcode fin false mask (length msg)) msg rest refl refl refl)

-- Where the user's callback does nothing but look at the message.
abbrev pub Looks : Option (DataType × List ℕ → Connection → Option Connection) → Type 0
Looks none = ⊥
Looks (some callback) = (m : DataType × List ℕ) (c : Connection) → callback m c ≡ some c

pub call_back-delivers :
    (on : Option (DataType × List ℕ → Connection → Option Connection)) (c : Connection)
    → Looks on
    → call_back on c
      ≡ some (record c {
        delivered = (c.last_message.data_type, contents_of c.last_message.payload) ∷ c.delivered;
      })
unfolding call_back
call_back-delivers none c looks = absurd looks
call_back-delivers (some callback) c looks = looks _ _

-- What the receiver should be left with.
abbrev pub Delivers : Connection → DataType → List ℕ → ℕ → ℕ × Connection → Type 0
Delivers c type msg taken out =
    (out.0 ≡ taken)
    × (out.1.delivered ≡ (type, msg) ∷ c.delivered)
    × (out.1.last_message.payload ≡ none)
    × (out.1.last_message.first_received ≡ false)

after_message-Delivers :
    (env : Env) (now : Timespec) (len : ℕ) (header : WsHeader) (state : MsgState)
    (c0 c : Connection) (type : DataType) (msg : List ℕ) (taken : ℕ)
    → Looks env.on_message
    → state ≡ user_data
    → IsComplete c0 type msg c
    → IsHandled c0 (state, c)
    → taken ≡ header.payload_start_offset + header.payload_length
    → taken < 2 ^ 64
    → Ensures (Delivers c0 type msg taken) (after_message env now len header state c)
unfolding after_message call_on_message
after_message-Delivers env now len header error c0 c type msg taken looks is whole handled size
      small =
    absurd (ground arith)
after_message-Delivers env now len header incomplete c0 c type msg taken looks is whole handled size
      small =
    absurd (ground arith)
after_message-Delivers env now len header no_user_data c0 c type msg taken looks is whole handled
      size small =
    absurd (ground arith)
after_message-Delivers env now len header user_data c0 c type msg taken looks is whole
      (kept, (owned, complete)) size small =
    let released : unref_if_set c.last_message ≡ some tt = ground arith in
    rw (call_back-delivers env.on_message c looks, released)
      (Ensures-some _ (
        omega arith,
        rw (whole.same_type, whole.same_contents, whole.same_delivered) refl,
        refl,
        refl,
      ))

pub decoded_mask-IsBytes :
    (opcode : Opcode) (fin masked : Bool) (mask len : ℕ)
    → IsBytes (decoded opcode fin masked mask len).mask
decoded_mask-IsBytes opcode fin true mask len = byte_mask-IsBytes mask
decoded_mask-IsBytes opcode fin false mask len = omega arith

pub empty_length : (m : LastMessage) → IsOwned m → m.payload ≡ none → m.len ≡ 0
empty_length m owned empty = ground arith

-- A frame with a whole message, which stands in front of the receive buffer of a connection that has
-- begun no message, is delivered as it was sent: where memory can be had, the frame is masked or the
-- receiver a client but not both, a text is UTF-8 and the callback leaves the connection alone, the
-- CONNECTED case of `websocket_onMessage` takes exactly the bytes of the frame, gives the callback
-- its type and its payload and ends with no message begun.
pub on_frame-Delivers :
    (env : Env) (now : Timespec) (c : Connection) (type : DataType) (masked : Bool) (mask : ℕ)
    (msg rest : List ℕ) (len : ℕ)
    → HasMemory env
    → Looks env.on_message
    → IsResting c
    → c.last_message.payload ≡ none
    → masked ≡ is_server c
    → IsBytes msg
    → IsAllowed type msg
    → IsBytes (frame_of (opcode_for type) true masked mask msg ++ rest)
    → len ≡ length (frame_of (opcode_for type) true masked mask msg ++ rest)
    → len < 2 ^ 64
    → Ensures
        (Delivers c type msg (length (frame_of (opcode_for type) true masked mask msg)))
        (on_frame env now c (frame_of (opcode_for type) true masked mask msg ++ rest) len)
unfolding on_frame on_header
on_frame-Delivers env now c type masked mask msg rest len memory looks resting empty right hb
      allowed hf size small =
    let frame = frame_of (opcode_for type) true masked mask msg in
    let header = decoded (opcode_for type) true masked mask (length msg) in
    let payload = (if masked then copy_masked mask msg else msg) in
    let head = create_websocket_header (opcode_for type) true masked mask (length msg) in
    let long : length (frame ++ rest) ≡ length frame + length rest = length-append frame rest in
    let whole : length frame ≡ header.payload_start_offset + length msg =
      length-frame (opcode_for type) true masked mask msg in
    let parses : parse_websocket_header (frame ++ rest) len ≡ some (parsed header) =
      rw (append_assoc head payload rest) (
        parse-create (opcode_for type) true masked mask (length msg) (payload ++ rest) len
          (omega arith) (omega arith)) in
    let owned = resting.sound.owned in
    rw parses (
      Ensures-bind
        (Ensures-both
          (parse_message-completes env memory type c (frame ++ rest) len header msg (omega arith)
            empty (ground arith) refl refl
            (read_payload-frame (opcode_for type) true masked mask msg rest hb) refl allowed)
          (parse_message-IsHandled env c (frame ++ rest) len header resting hf
            (decoded_mask-IsBytes (opcode_for type) true masked mask (length msg)) (omega arith)
            (omega arith) (ground (arith, empty_length c.last_message owned empty)) (ground arith)))
        λ out h.
          after_message-Delivers env now len header out.0 c out.1 type msg (length frame) looks
            h.0.0 h.0.1 h.1.0 whole (omega arith))
