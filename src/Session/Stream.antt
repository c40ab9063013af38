-- ===== src/Session/Stream.antt =====
-- The frames of a connection as bytes in the receive buffer of `connectionThread`.
pub mod Loop
pub mod Whole
pub mod Fragments
use ezwebsocket.Prelude.{
  ℕ, zero, suc, ◌+◌, ◌≤◌, ◌<◌, ◌^◌, ◌≡◌, refl, sym, subst, ap, ◌∙◌, ◌==◌, arith, append_assoc,
}
use ezwebsocket.Prelude.{
  Bool, true, false, not, ◌&&◌, List, [], ◌∷◌, ◌++◌, Option, none, some, length, drop, IsBytes, All,
  All-append, length-append, drop-append, append-nil, if◌then◌else◌, ◌>>=◌,
}
use ezwebsocket.Prelude.{Ensures, Ensures-if, Ensures-some, Ensures-weaken}
use ezwebsocket.Frame.RoundTrip.{decoded}
use ezwebsocket.Connection.{
  WsState, handshake, closed, connected, established, SocketState, DataType, Connection, Env,
  is_server, frame_of,
}
use ezwebsocket.Connection.Invariant.{SameLink}
use ezwebsocket.Connection.Send.{HasMemory}
use ezwebsocket.DynBuffer.{DynBuffer, remove_leading_bytes, unread}
use ezwebsocket.DynBuffer.Bounds.{IsFit, length-unread, remove_leading_bytes-IsFit}
use ezwebsocket.Message.Assembly.{
  Part, first, next, Pending, part_opcode, is_last, payload_of, accepts, extend, assemble,
  assemble_all, pending_bytes, Represents,
}
use ezwebsocket.Message.Assembly.{bytes_of, stream, parts_of, HasBytes}
use ezwebsocket.Receive.{Timespec, on_frame}
use ezwebsocket.Receive.Delivery.{Looks, length-frame, empty_length}
use ezwebsocket.Receive.Refinement.{on_frame-Follows}
use ezwebsocket.Receive.Frames.{Follows}
use ezwebsocket.Sending.EndToEnd.{frame-IsBytes}
use ezwebsocket.Frame.Bytes.{create_websocket_header_some}
use ezwebsocket.Message.Assembly.Next.{length-contents}
use ezwebsocket.SocketServer.{drain}
use ezwebsocket.SocketServer.Drain.{drain_step}
use ezwebsocket.Session.{Setup, on_state, websocket_on_message}

-- `state == SOCKET_SESSION_STATE_CONNECTED`.
abbrev pub is_session_up : Connection → Bool
is_session_up c = elim c.socket [
  | none ↦ false
  | some s ↦ elim s [ established ↦ true | _ ↦ false ]
]

pub stream-IsBytes :
    (masked : Bool) (frames : List (Part × ℕ))
    → All HasBytes frames
    → IsBytes (stream masked frames)
stream-IsBytes masked [] h = tt
stream-IsBytes masked ((part, mask) ∷ frames) h =
    All-append (λ x. x < 256) (bytes_of masked (part, mask)) (stream masked frames)
      (frame-IsBytes (part_opcode part) (is_last part) masked mask (payload_of part) (h.0))
      (stream-IsBytes masked frames (h.1))

-- No frame is empty, and each is longer than its payload.
pub frame_some :
    (masked : Bool) (frame : Part × ℕ)
    → length (payload_of (frame.0)) + 2 ≤ length (bytes_of masked frame)
frame_some masked (part, mask) = omega (
  arith,
  length-frame (part_opcode part) (is_last part) masked mask (payload_of part),
  create_websocket_header_some (part_opcode part) (is_last part) masked mask
      (length (payload_of part)),
)

-- A frame adds no more than its payload.
extend_grows :
    (type : DataType) (fin : Bool) (all : List ℕ) (r : Pending × List (DataType × List ℕ))
    → extend type fin all ≡ some r
    → length (pending_bytes (r.0)) ≤ length all
extend_grows type true all r is = ground arith
extend_grows type false all r is = ground arith

pub assemble_grows :
    (p : Pending) (part : Part) (r : Pending × List (DataType × List ℕ))
    → assemble p part ≡ some r
    → length (pending_bytes (r.0)) ≤ length (pending_bytes p) + length (payload_of part)
assemble_grows none (first type fin msg) r is = omega (arith, extend_grows type fin msg r is)
assemble_grows none (next fin msg) r is = absurd (ground arith)
assemble_grows (some message) (first type fin msg) r is = absurd (ground arith)
assemble_grows (some message) (next fin msg) r is =
    omega
      (arith, extend_grows (message.0) fin (message.1 ++ msg) r is, length-append (message.1) msg)

-- The recorded length is that of the bytes kept.
pub Represents-len :
    (p : Pending) (c : Connection) → Represents p c → c.last_message.len ≡ length (pending_bytes p)
Represents-len none c for = empty_length c.last_message (for.0.sound.owned) (for.1)
Represents-len (some message) c for = length-contents c (for.0) ∙ ap length (for.1.same_contents)

-- What is left of a frame and bytes behind it.
pub dropped :
    (b : DynBuffer) (frame rest : List ℕ)
    → IsFit b
    → unread b ≡ frame ++ rest
    → IsFit (remove_leading_bytes b (length frame)).1
      × (unread (remove_leading_bytes b (length frame)).1 ≡ rest)
      × ((remove_leading_bytes b (length frame)).1.used ≡ length rest)
dropped b frame rest fit is =
    let few : length frame ≤ b.used =
      omega (arith, length-unread b fit, ap length is, length-append frame rest) in
    let (fit', left) = remove_leading_bytes-IsFit b (length frame) fit few in
    let rests : unread (remove_leading_bytes b (length frame)).1 ≡ rest =
      rw (left, is) (drop-append (length frame) frame rest refl) in
    (fit', rests, sym (length-unread _ fit') ∙ ap length rests)

module _ (setup : Setup) (env : Env) (now : Timespec) where
  -- `websocket_onMessage` on an open connection, as `connectionThread` calls it.
  abbrev pub reader : Connection → List ℕ → Option (ℕ × Connection)
  reader c bytes = websocket_on_message setup env now c bytes (length bytes)

  on_state_connected :
      (state : WsState) (c : Connection) (bytes : List ℕ)
      → state ≡ connected
      → on_state setup env state c.ws_type now c bytes (length bytes)
        ≡ on_frame env now c bytes (length bytes)
  unfolding on_state
  on_state_connected connected c bytes is = refl
  on_state_connected handshake c bytes is = absurd (ground arith)
  on_state_connected closed c bytes is = absurd (ground arith)

  pub reader_connected :
      (c : Connection) (bytes : List ℕ)
      → c.state ≡ connected
      → reader c bytes ≡ on_frame env now c bytes (length bytes)
  unfolding websocket_on_message
  reader_connected c bytes is = on_state_connected c.state c bytes is

-- A run of the abstract receiver begins with its first frame.
pub record Steps (p : Pending) (part : Part) (parts : List Part)
    (s : Pending × List (DataType × List ℕ)) : Type 0 where
  pub now : Pending × List (DataType × List ℕ)
  pub afterwards : Pending × List (DataType × List ℕ)
  pub here : assemble p part ≡ some now
  pub there : assemble_all (now.0) parts ≡ some afterwards
  pub pending : afterwards.0 ≡ s.0
  pub given : afterwards.1 ++ now.1 ≡ s.1

pub assemble_all_step :
    (p : Pending) (part : Part) (parts : List Part) (s : Pending × List (DataType × List ℕ))
    → assemble_all p (part ∷ parts) ≡ some s
    → Steps p part parts s
assemble_all_step p part parts s is = by_first (assemble p part) refl is
  where
    by_rest :
        (r : Pending × List (DataType × List ℕ)) (m : Option (Pending × List (DataType × List ℕ)))
        → assemble p part ≡ some r
        → m ≡ assemble_all (r.0) parts
        → (do t ← m; some (t.0, t.1 ++ r.1)) ≡ some s
        → Steps p part parts s
    by_rest r none here there is = absurd (ground arith)
    by_rest r (some t) here there is = record {
      now = r;
      afterwards = t;
      here = here;
      there = sym there;
      pending = ground arith;
      given = ground arith;
    }

    by_first :
        (m : Option (Pending × List (DataType × List ℕ)))
        → m ≡ assemble p part
        → (do r ← m; t ← assemble_all (r.0) parts; some (t.0, t.1 ++ r.1)) ≡ some s
        → Steps p part parts s
    by_first none here is = absurd (ground arith)
    by_first (some r) here is = by_rest r (assemble_all (r.0) parts) (sym here) refl is

-- After the frames: what was given away, what is pending, an empty buffer and an open connection.
abbrev pub Assembles :
    Connection → Pending × List (DataType × List ℕ) → Connection × DynBuffer → Type 0
Assembles c s out =
    (out.0.delivered ≡ s.1 ++ c.delivered)
    × Represents (s.0) (out.0)
    × (unread out.1 ≡ [])
    × (is_session_up out.0 ≡ true)
    × (out.0.state ≡ connected)

-- Nothing to give away and nothing to keep.
pub no_frames :
    (p : Pending) (s : Pending × List (DataType × List ℕ))
    → assemble_all p [] ≡ some s
    → (s.0 ≡ p) × (s.1 ≡ [])
no_frames p s is = ground arith
