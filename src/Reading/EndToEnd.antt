-- ===== src/Reading/EndToEnd.antt =====
-- From the socket to the callback: what one turn of a connection's thread does with whole frames.
use ezwebsocket.Prelude.{ℕ, ◌+◌, ◌*◌, ◌<◌, ◌^◌, ◌≡◌, ◌∙◌, arith}
use ezwebsocket.Prelude.{Bool, true, List, [], ◌∷◌, ◌++◌, Option, some, All, length}
use ezwebsocket.Prelude.{Ensures, Ensures-bind, Ensures-if, Ensures-some}
use ezwebsocket.Connection.{WsType, connected, DataType, disconnected, Connection, Env, is_server}
use ezwebsocket.Connection.Send.{HasMemory}
use ezwebsocket.DynBuffer.{DynBuffer, unread}
use ezwebsocket.DynBuffer.Bounds.{IsFit}
use ezwebsocket.Message.Assembly.{
  Part, Pending, assemble_all, pending_bytes, Represents, stream, parts_of, HasBytes,
}
use ezwebsocket.Receive.{Timespec}
use ezwebsocket.Receive.Delivery.{Looks}
use ezwebsocket.Session.{Setup}
use ezwebsocket.Session.Stream.{is_session_up, reader, Assembles}
use ezwebsocket.Session.Stream.Loop.{drain-Assembles}
use ezwebsocket.Reading.{chunk_size, on_readable}
use ezwebsocket.Reading.Complete.{IsSocket, read_all-reads}

-- `state = SOCKET_SESSION_STATE_DISCONNECTED`.
abbrev pub hang_up : Connection → Connection
hang_up c = record c { socket = some disconnected }

-- One turn of a connection's thread, where what has arrived completes whole frames behind what is in
-- the buffer, masked as the receiver wants them, that the abstract receiver accepts: all is read, the
-- callback is given exactly the messages that the abstract receiver gives away, in their order, and
-- the connection is open and stands for what is pending then, with an empty buffer. `recv` does what is
-- documented, memory can be had, all fits a `size_t` and the callback leaves the connection alone.
pub on_readable-Assembles :
    {W : Type 0} (recv : ℕ → W → Option (List ℕ) × W) (got : ℕ → Bool) (arrived : W → List ℕ)
    (setup : Setup) (env : Env) (now : Timespec) (type : WsType) (fuel : ℕ) (w : W)
    (frame : Part × ℕ) (frames : List (Part × ℕ)) (masked : Bool) (c : Connection) (b : DynBuffer)
    (p : Pending) (s : Pending × List (DataType × List ℕ))
    → ((size : ℕ) → got size ≡ true)
    → IsSocket recv arrived
    → HasMemory env
    → Looks env.on_message
    → Represents p c
    → assemble_all p (parts_of (frame ∷ frames)) ≡ some s
    → masked ≡ is_server c
    → c.state ≡ connected
    → is_session_up c ≡ true
    → All HasBytes (frame ∷ frames)
    → IsFit b
    → unread b ++ arrived w ≡ stream masked (frame ∷ frames)
    → length (pending_bytes p) + length (stream masked (frame ∷ frames)) < 2 ^ 64
    → b.used + length (arrived w) + chunk_size type * (1 + length (arrived w)) < 2 ^ 64
    → length (arrived w) + length frames < fuel
    → Ensures
        (λ out. (arrived out.0 ≡ []) × Assembles c s (out.1, out.2))
        (on_readable recv got is_session_up hang_up (reader setup env now) type fuel w c b)
unfolding on_readable
on_readable-Assembles recv got arrived setup env now type fuel w frame frames masked c b p s room
      socket memory looks for run right ready up hb fit holds small small_read enough =
    Ensures-bind
      (read_all-reads recv got room arrived socket type fuel 1 true w b fit (omega arith)
        (omega arith) small_read)
      λ out read. rw (read.0) (
        Ensures-if (is_session_up c)
          (λ _.
            Ensures-bind
              (drain-Assembles setup env now memory looks fuel frame frames masked c out.2 p s for
                run right ready up hb (read.2) (read.3 ∙ holds) small (omega arith))
              λ done h. Ensures-some _ (read.1, h))
          (λ down. absurd (ground arith)))
