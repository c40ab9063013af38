-- ===== src/Session/Stream/Whole.antt =====
-- `websocket_onMessage` on an open connection, as the reader that `connectionThread` hands whole frames.
use ezwebsocket.Prelude.{ℕ, ◌+◌, ◌<◌, ◌≤◌, ◌^◌, ◌≡◌, refl, sym, ap, ◌∙◌, ◌⊎◌, inl, inr, arith}
use ezwebsocket.Prelude.{
  Bool, false, List, [], ◌∷◌, some, length, drop, All, length-append, drop-append,
}
use ezwebsocket.Prelude.{Ensures, Ensures-some}
use ezwebsocket.Connection.{connected, DataType, Connection, Env, is_server}
use ezwebsocket.Connection.Send.{HasMemory}
use ezwebsocket.DynBuffer.Bounds.{filled, filled-IsFit}
use ezwebsocket.Message.Assembly.{
  Part, Pending, assemble_all, pending_bytes, Represents, bytes_of, stream, parts_of, HasBytes,
}
use ezwebsocket.Receive.{Timespec}
use ezwebsocket.Receive.Delivery.{Looks}
use ezwebsocket.SocketServer.Drain.{IsReader}
use ezwebsocket.Session.{Setup}
use ezwebsocket.Connection.Invariant.{SameLink}
use ezwebsocket.Session.Stream.{is_session_up, reader, Steps}
use ezwebsocket.Session.Stream.Loop.{takes_frame, server_same}

-- The bytes are whole frames, masked as the connection wants them, that the abstract receiver accepts.
pub record HasFrames (masked : Bool) (c : Connection) (bytes : List ℕ) : Type 0 where
  pub frame : Part × ℕ
  pub frames : List (Part × ℕ)
  pub before : Pending
  pub afterwards : Pending × List (DataType × List ℕ)
  pub stands : Represents before c
  pub accepted : assemble_all before (parts_of (frame ∷ frames)) ≡ some afterwards
  pub right : masked ≡ is_server c
  pub ready : c.state ≡ connected
  pub are_bytes : All HasBytes (frame ∷ frames)
  pub whole : bytes ≡ stream masked (frame ∷ frames)
  pub room : length (pending_bytes before) + length bytes < 2 ^ 64

-- Nothing is left, or whole frames are.
abbrev Leaves : Bool → List ℕ → ℕ × Connection → Type 0
Leaves masked bytes out =
    (out.0 ≤ length bytes)
    × ((out.0 ≡ 0)
        ⊎ (drop out.0 bytes ≡ [])
        ⊎ (is_session_up out.1 ≡ false)
        ⊎ HasFrames masked out.1 (drop out.0 bytes))

left_frames :
    (frames : List (Part × ℕ)) (masked : Bool) (c after : Connection) (rest : List ℕ) (p : Pending)
    (part : Part) (s : Pending × List (DataType × List ℕ))
    (steps : Steps p part (parts_of frames) s)
    → Represents (steps.now.0) after
    → after.ws_type ≡ c.ws_type
    → SameLink c after
    → masked ≡ is_server c
    → c.state ≡ connected
    → All HasBytes frames
    → rest ≡ stream masked frames
    → length (pending_bytes (steps.now.0)) + length (stream masked frames) < 2 ^ 64
    → (rest ≡ []) ⊎ (is_session_up after ≡ false) ⊎ HasFrames masked after rest
left_frames [] masked c after rest p part s steps for same link right ready hb left room = inl left
left_frames (frame ∷ frames) masked c after rest p part s steps for same link right ready hb left
      room =
    inr (
      inr (record {
        frame = frame;
        frames = frames;
        before = steps.now.0;
        afterwards = steps.afterwards;
        stands = for;
        accepted = steps.there;
        right = right ∙ server_same c after same;
        ready = link.1 ∙ ready;
        are_bytes = hb;
        whole = left;
        room = omega (arith, ap length left);
      }))

module _ (setup : Setup) (env : Env) (now : Timespec) (memory : HasMemory env)
    (looks : Looks env.on_message) where
  reads_frame :
      (frame : Part × ℕ) (frames : List (Part × ℕ)) (masked : Bool) (c : Connection)
      (bytes : List ℕ) (p : Pending) (s : Pending × List (DataType × List ℕ))
      → Represents p c
      → assemble_all p (parts_of (frame ∷ frames)) ≡ some s
      → masked ≡ is_server c
      → c.state ≡ connected
      → All HasBytes (frame ∷ frames)
      → bytes ≡ stream masked (frame ∷ frames)
      → length (pending_bytes p) + length bytes < 2 ^ 64
      → Ensures (Leaves masked bytes) (reader setup env now c bytes)
  reads_frame frame frames masked c bytes p s for run right ready hb whole room =
      let (fit, holds) = filled-IsFit bytes (omega arith) in
      let t =
        takes_frame setup env now memory looks frame frames masked c (filled bytes) p s for run
          right ready hb fit (holds ∙ whole) (omega (arith, ap length whole)) in
      let count = length (bytes_of masked frame) in
      let left : drop count bytes ≡ stream masked frames =
        ap (drop count) whole
        ∙ drop-append count (bytes_of masked frame) (stream masked frames) refl in
      rw (sym (ap (reader setup env now c) holds) ∙ t.takes) (
        Ensures-some _ (
          omega (
            arith,
            ap length whole,
            length-append (bytes_of masked frame) (stream masked frames),
          ),
          inr (
              left_frames frames masked c t.after (drop count bytes) p (frame.0) s t.steps t.stands
                t.same_type t.link right ready (hb.1) left t.room),
        ))

  -- The reader takes the first of whole frames, and what is left are whole frames again, or nothing.
  pub whole-IsReader :
      (masked : Bool) → IsReader is_session_up (reader setup env now) (HasFrames masked)
  whole-IsReader masked c bytes h =
      reads_frame h.frame h.frames masked c bytes h.before h.afterwards h.stands h.accepted h.right
        h.ready h.are_bytes h.whole h.room
