-- ===== src/Session/Stream/Fragments.antt =====
-- A message that one peer sends in fragments and the other receives.
use ezwebsocket.Prelude.{ℕ, ◌+◌, ◌*◌, ◌≤◌, ◌<◌, ◌^◌, ◌≡◌, refl, sym, subst, ap, ◌∙◌, arith}
use ezwebsocket.Prelude.{Bool, true, List, [], ◌∷◌, ◌++◌, none, length, IsBytes, All, length-append}
use ezwebsocket.Prelude.{Ensures, Ensures-weaken}
use ezwebsocket.Frame.Bytes.{length-create_websocket_header}
use ezwebsocket.Connection.{connected, DataType, Connection, Env, is_client, is_server}
use ezwebsocket.Connection.Send.{HasMemory, HasNetwork}
use ezwebsocket.DynBuffer.Bounds.{filled, filled-IsFit}
use ezwebsocket.Message.Assembly.{
  Part, part_opcode, is_last, payload_of, accepts, bytes_of, stream, parts_of, HasBytes,
  assemble_all, Represents,
}
use ezwebsocket.Message.Assembly.Fragments.{more_parts, fragments, whole, assemble_all-fragments}
use ezwebsocket.Receive.{Timespec}
use ezwebsocket.Receive.Delivery.{Looks, length-frame}
use ezwebsocket.Sending.Fragments.{send_parts, send_parts-writes, wire, IsReady}
use ezwebsocket.SocketServer.{drain}
use ezwebsocket.Session.{Setup}
use ezwebsocket.Session.Stream.{is_session_up, reader, Assembles}
use ezwebsocket.Session.Stream.Loop.{drain-Assembles}

abbrev PartBytes : Part → Type 0
PartBytes part = IsBytes (payload_of part)

-- All payloads together.
abbrev size_of : List Part → ℕ
size_of [] = 0
size_of (part ∷ parts) = length (payload_of part) + size_of parts

frames-HasBytes : (frames : List (Part × ℕ)) → All PartBytes (parts_of frames) → All HasBytes frames
frames-HasBytes [] h = tt
frames-HasBytes (frame ∷ frames) h = (h.0, frames-HasBytes frames (h.1))

-- A frame adds at most 14 bytes to its payload.
pub length-stream :
    (masked : Bool) (frames : List (Part × ℕ))
    → length (stream masked frames) ≤ size_of (parts_of frames) + 14 * length (parts_of frames)
length-stream masked [] = omega arith
length-stream masked ((part, mask) ∷ frames) = omega (
  arith,
  length-append (bytes_of masked (part, mask)) (stream masked frames),
  length-frame (part_opcode part) (is_last part) masked mask (payload_of part),
  length-create_websocket_header (part_opcode part) (is_last part) masked mask
      (length (payload_of part)),
  length-stream masked frames,
)

length-parts_of : (frames : List (Part × ℕ)) → length (parts_of frames) ≡ length frames
length-parts_of [] = refl
length-parts_of (frame ∷ frames) = omega (arith, length-parts_of frames)

-- What the pieces are together.
more_parts_sizes :
    (piece : List ℕ) (others : List (List ℕ))
    → (size_of (more_parts piece others) ≡ length (whole piece others))
      × (length (more_parts piece others) ≡ 1 + length others)
more_parts_sizes piece [] = (omega arith, refl)
more_parts_sizes piece (other ∷ others) =
    let (size, count) = more_parts_sizes other others in
    (omega (arith, length-append piece (whole other others)), omega arith)

fragments_sizes :
    (type : DataType) (piece : List ℕ) (others : List (List ℕ))
    → (size_of (fragments type piece others) ≡ length (whole piece others))
      × (length (fragments type piece others) ≡ 1 + length others)
fragments_sizes type piece [] = (omega arith, refl)
fragments_sizes type piece (other ∷ others) =
    let (size, count) = more_parts_sizes other others in
    (omega (arith, length-append piece (whole other others)), omega arith)

more_parts-PartBytes :
    (piece : List ℕ) (others : List (List ℕ))
    → All IsBytes (piece ∷ others)
    → All PartBytes (more_parts piece others)
more_parts-PartBytes piece [] h = (h.0, tt)
more_parts-PartBytes piece (other ∷ others) h = (h.0, more_parts-PartBytes other others (h.1))

fragments-PartBytes :
    (type : DataType) (piece : List ℕ) (others : List (List ℕ))
    → All IsBytes (piece ∷ others)
    → All PartBytes (fragments type piece others)
fragments-PartBytes type piece [] h = (h.0, tt)
fragments-PartBytes type piece (other ∷ others) h = (h.0, more_parts-PartBytes other others (h.1))

module _ (setup : Setup) (env : Env) (now : Timespec) (memory : HasMemory env)
    (looks : Looks env.on_message) where
  -- The loop on a buffer with the frames of a message in fragments.
  drain-fragments :
      (receiver : Connection) (masked : Bool) (frames : List (Part × ℕ)) (type : DataType)
      (piece : List ℕ) (others : List (List ℕ))
      → parts_of frames ≡ fragments type piece others
      → Represents none receiver
      → masked ≡ is_server receiver
      → receiver.state ≡ connected
      → is_session_up receiver ≡ true
      → All IsBytes (piece ∷ others)
      → accepts type true (whole piece others) ≡ true
      → length (whole piece others) + 14 * (1 + length others) < 2 ^ 64
      → Ensures (Assembles receiver (none, (type, whole piece others) ∷ [])) (
          drain is_session_up
            (reader setup env now)
            (1 + length others)
            receiver
            (filled (stream masked frames)))
  drain-fragments receiver masked [] type piece [] is for right ready up hb accepted room =
      absurd (ground arith)
  drain-fragments receiver masked [] type piece (other ∷ others) is for right ready up hb accepted
        room =
      absurd (ground arith)
  drain-fragments receiver masked (frame ∷ frames) type piece others is for right ready up hb
        accepted room =
      let (size, count) = fragments_sizes type piece others in
      let small : length (stream masked (frame ∷ frames)) < 2 ^ 64 =
        omega (arith, length-stream masked (frame ∷ frames), ap size_of is, ap length is) in
      let (fit, holds) = filled-IsFit (stream masked (frame ∷ frames)) small in
      drain-Assembles setup env now memory looks (1 + length others) frame frames masked receiver
        (filled (stream masked (frame ∷ frames))) none (none, (type, whole piece others) ∷ []) for
        (ap (assemble_all none) is ∙ assemble_all-fragments type piece others accepted) right ready
        up
        (frames-HasBytes (frame ∷ frames)
          (subst (All PartBytes) (sym is) (fragments-PartBytes type piece others hb)))
        fit holds (omega arith) (omega (arith, ap length is, length-parts_of frames))

-- A message that an open, established connection sends in fragments, by
-- `websocket_sendDataFragmentedStart` and `websocket_sendDataFragmentedCont`, reaches the callback of
-- its peer whole. Where memory can be had on both sides, `send` takes whole buffers, nothing was sent
-- before, the peer is of the other kind, open and has begun no message, its callback leaves the
-- connection alone, all fits a `size_t`, and a text is UTF-8 as a whole: the calls return, and when
-- what they wrote stands in the receive buffer, the loop of `connectionThread` ends within as many
-- rounds as there are fragments, with one message delivered, the pieces joined, and the buffer empty.
pub fragments-delivered :
    (setup : Setup) (env env' : Env) (now : Timespec) (sender receiver : Connection)
    (type : DataType) (piece : List ℕ) (others : List (List ℕ))
    → HasMemory env
    → HasNetwork env
    → HasMemory env'
    → Looks env'.on_message
    → IsReady sender
    → sender.sent ≡ []
    → Represents none receiver
    → receiver.state ≡ connected
    → is_session_up receiver ≡ true
    → is_client sender ≡ is_server receiver
    → All IsBytes (piece ∷ others)
    → accepts type true (whole piece others) ≡ true
    → length (whole piece others) + 14 * (1 + length others) < 2 ^ 64
    → Ensures
        (λ d. Ensures (Assembles receiver (none, (type, whole piece others) ∷ [])) (
          drain is_session_up
            (reader setup env' now)
            (1 + length others)
            receiver
            (filled (wire d.sent))))
        (send_parts env sender (fragments type piece others))
fragments-delivered setup env env' now sender receiver type piece others memory network memory'
      looks open_sender fresh for ready up other hb accepted room =
    Ensures-weaken
      (send_parts-writes env memory network sender (is_client sender) (fragments type piece others)
        open_sender refl)
      λ d h.
        let (frames, is, written) = h in
        let holds : wire d.sent ≡ stream (is_client sender) frames =
          written ∙ ap (λ sent. wire sent ++ stream (is_client sender) frames) fresh in
        rw holds (
          drain-fragments setup env' now memory' looks receiver (is_client sender) frames type piece
            others is for other ready up hb accepted room)
