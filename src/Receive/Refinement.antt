-- ===== src/Receive/Refinement.antt =====
-- A frame in the receive buffer against the abstract receiver of data frames.
use ezwebsocket.Prelude.{ℕ, ◌+◌, ◌<◌, ◌^◌, ◌≡◌, refl, ap, sym, arith}
use ezwebsocket.Prelude.{Bool, List, [], ◌++◌, Option, none, some, length, IsBytes, length-append}
use ezwebsocket.Prelude.{Ensures, Ensures-both, Ensures-bind}
use ezwebsocket.Frame.RoundTrip.{decoded}
use ezwebsocket.Connection.{
  DataType, Connection, Env, is_server, contents_of, frame_of, opcode_for, LastMessage, Block,
}
use ezwebsocket.Connection.Invariant.{IsResting, IsOwned, OwnsBlock}
use ezwebsocket.Connection.Send.{HasMemory}
use ezwebsocket.Message.{handle_message}
use ezwebsocket.Message.Control.{handle_message-IsHandled}
use ezwebsocket.Message.Assembly.{
  Part, first, Pending, part_opcode, is_last, payload_of, assemble, Represents,
}
use ezwebsocket.Message.Assembly.Parts.{TakesPart, handle_first-TakesPart, handle_message-IsTaken}
use ezwebsocket.Receive.{Timespec, on_frame}
use ezwebsocket.Receive.Delivery.{Looks, length-frame, read_payload-frame, decoded_mask-IsBytes}
use ezwebsocket.Receive.Frames.{on_frame_whole, Follows, after_message-Follows}

pub Represents-IsResting : (p : Pending) (c : Connection) → Represents p c → IsResting c
Represents-IsResting none c for = for.0
Represents-IsResting (some message) c for = for.0

-- The frame of a part, as it stands in the receive buffer, and its header.
abbrev pub bytes_with : Part → Bool → ℕ → List ℕ → List ℕ
bytes_with part masked mask rest =
    frame_of (part_opcode part) (is_last part) masked mask (payload_of part) ++ rest

-- What the handlers take of it is what the receiver follows.
on_frame-takes :
    (env : Env) (now : Timespec) (c : Connection) (part : Part)
    (r : Pending × List (DataType × List ℕ)) (masked : Bool) (mask : ℕ) (rest : List ℕ)
    → Looks env.on_message
    → IsResting c
    → masked ≡ is_server c
    → IsBytes (bytes_with part masked mask rest)
    → c.last_message.len + length (bytes_with part masked mask rest) < 2 ^ 64
    → Ensures (TakesPart c (is_last part) r) (
        handle_message env
          (part_opcode part)
          c
          (bytes_with part masked mask rest)
          (decoded (part_opcode part) (is_last part) masked mask (length (payload_of part))))
    → Ensures
        (Follows c r
          (length (frame_of (part_opcode part) (is_last part) masked mask (payload_of part))))
        (on_frame env now c
          (bytes_with part masked mask rest)
          (length (bytes_with part masked mask rest)))
on_frame-takes env now c part r masked mask rest looks resting right hf room takes =
    let msg = payload_of part in
    let opcode = part_opcode part in
    let frame = frame_of opcode (is_last part) masked mask msg in
    let bytes = frame ++ rest in
    let header = decoded opcode (is_last part) masked mask (length msg) in
    let long : length bytes ≡ length frame + length rest = length-append frame rest in
    let whole : length frame ≡ header.payload_start_offset + length msg =
      length-frame opcode (is_last part) masked mask msg in
    rw
      (on_frame_whole env now c opcode (is_last part) masked mask msg rest (length bytes) refl
        (omega arith))
      (Ensures-bind
        (Ensures-both takes (
          handle_message-IsHandled env opcode c bytes header resting
            (record {
              bytes_fit = hf;
              mask_fits = decoded_mask-IsBytes opcode (is_last part) masked mask (length msg);
              inside = omega arith;
              small = omega arith;
            })
            (omega arith) (ground arith)))
        λ out h.
          let (type, (all, gives, taken)) = h.0 in
          rw (sym gives) (
            after_message-Follows env now (length bytes) header (is_last part) out.0 c out.1 type
              all (length frame) looks taken h.1 whole (omega arith) (omega arith)))

-- An empty payload is not stored.
no_block : (m : LastMessage) → IsOwned m → contents_of m.payload ≡ [] → m.payload ≡ none
no_block m owned empty = by_payload m.payload owned.0 empty
  where
    by_payload :
        (payload : Option Block)
        → OwnsBlock m.complete m.len payload
        → contents_of payload ≡ []
        → payload ≡ none
    by_payload none owns empty = refl
    by_payload (some block) owns empty = absurd (omega (arith, ap length empty, owns.1, owns.3))

-- The code refines the abstract receiver of data frames, frame by frame. Let the connection stand for
-- the pending message, and a frame whose masking suits the receiver stand in front of the receive
-- buffer, which the abstract receiver accepts: then, where memory can be had, all fits a `size_t` and
-- the callback leaves the connection alone, the CONNECTED case of `websocket_onMessage` takes exactly
-- the bytes of the frame, gives the callback exactly the messages that the abstract receiver gives
-- away, and the connection stands for what is pending then.
pub on_frame-Follows :
    (env : Env) (now : Timespec) (c : Connection) (p : Pending) (part : Part)
    (r : Pending × List (DataType × List ℕ)) (masked : Bool) (mask : ℕ) (rest : List ℕ)
    → HasMemory env
    → Looks env.on_message
    → Represents p c
    → assemble p part ≡ some r
    → masked ≡ is_server c
    → IsBytes (payload_of part)
    → IsBytes (frame_of (part_opcode part) (is_last part) masked mask (payload_of part) ++ rest)
    → c.last_message.len
        + length (frame_of (part_opcode part) (is_last part) masked mask (payload_of part) ++ rest)
      < 2 ^ 64
    → Ensures
        (Follows c r
          (length (frame_of (part_opcode part) (is_last part) masked mask (payload_of part))))
        (on_frame env now c
          (frame_of (part_opcode part) (is_last part) masked mask (payload_of part) ++ rest)
          (length
            (frame_of (part_opcode part) (is_last part) masked mask (payload_of part) ++ rest)))
on_frame-Follows env now c p part r masked mask rest memory looks for is right hb hf room =
    let msg = payload_of part in
    let opcode = part_opcode part in
    let header = decoded opcode (is_last part) masked mask (length msg) in
    let frame = frame_of opcode (is_last part) masked mask msg in
    let long = length-append frame rest in
    let whole = length-frame opcode (is_last part) masked mask msg in
    on_frame-takes env now c part r masked mask rest looks (Represents-IsResting p c for) right hf
      room
      (handle_message-IsTaken env p part r c (frame ++ rest) header memory for is right refl refl
        (read_payload-frame opcode (is_last part) masked mask msg rest hb) refl (omega arith))

-- Where no byte of the pending message is kept, the code does not see that one is pending: a frame that
-- begins a message, which the abstract receiver refuses, is received as if none were, and the pending
-- message is forgotten; under the same conditions.
pub pending_forgotten :
    (env : Env) (now : Timespec) (c : Connection) (pending type : DataType) (fin : Bool)
    (msg : List ℕ) (r : Pending × List (DataType × List ℕ)) (masked : Bool) (mask : ℕ)
    (rest : List ℕ)
    → HasMemory env
    → Looks env.on_message
    → Represents (some (pending, [])) c
    → assemble none (first type fin msg) ≡ some r
    → masked ≡ is_server c
    → IsBytes msg
    → IsBytes (bytes_with (first type fin msg) masked mask rest)
    → c.last_message.len + length (bytes_with (first type fin msg) masked mask rest) < 2 ^ 64
    → (assemble (some (pending, [])) (first type fin msg) ≡ none)
      × Ensures (Follows c r (length (frame_of (opcode_for type) fin masked mask msg))) (
          on_frame env now c
            (bytes_with (first type fin msg) masked mask rest)
            (length (bytes_with (first type fin msg) masked mask rest)))
pending_forgotten env now c pending type fin msg r masked mask rest memory looks for is right hb hf
      room =
    let header = decoded (opcode_for type) fin masked mask (length msg) in
    let frame = frame_of (opcode_for type) fin masked mask msg in
    let empty : c.last_message.payload ≡ none =
      no_block c.last_message (for.0.sound.owned) (for.1.same_contents) in
    (
      refl,
      on_frame-takes env now c (first type fin msg) r masked mask rest looks (for.0) right hf room (
          handle_first-TakesPart env type c (frame ++ rest) header msg r memory empty right refl is
            (read_payload-frame (opcode_for type) fin masked mask msg rest hb) refl),
    )
