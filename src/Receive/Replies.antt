-- ===== src/Receive/Replies.antt =====
-- A frame in the receive buffer that is answered: a ping, a close frame, and what the protocol does
-- not allow.
use ezwebsocket.Prelude.{ℕ, ◌+◌, ◌≤◌, ◌<◌, ◌^◌, ◌≡◌, refl, inl, ◌⊎◌, arith}
use ezwebsocket.Prelude.{Bool, true, List, ◌∷◌, ◌++◌, none, some, length, IsBytes, length-append}
use ezwebsocket.Prelude.{Ensures, Ensures-bind, Ensures-some}
use ezwebsocket.Frame.{WsHeader, ping, pong, disconnect, max_default_payload_length}
use ezwebsocket.Frame.RoundTrip.{decoded}
use ezwebsocket.Connection.{Connection, Env, is_client, is_server, frame_of, release}
use ezwebsocket.Connection.Invariant.{IsResting, SameButIo}
use ezwebsocket.Connection.Send.{HasMemory, HasNetwork}
use ezwebsocket.Connection.Close.{ClosesWith}
use ezwebsocket.Message.{MsgState, error, incomplete, no_user_data, user_data}
use ezwebsocket.Message.Replies.{
  IsOpen, Pongs, reply_code, handle_message_ping, handle_message_disconnect,
  handle_ping_message-Pongs, handle_disconnect_message-Replies,
}
use ezwebsocket.Message.Refusals.{refusal_code, IsSeen}
use ezwebsocket.Message.Refusals.Parts.{handle_message-Refuses}
use ezwebsocket.Message.Assembly.{
  Part, Pending, part_opcode, is_last, payload_of, assemble, Represents,
}
use ezwebsocket.Receive.{Timespec, after_message, on_frame}
use ezwebsocket.Receive.Delivery.{length-frame, read_payload-frame, decoded_mask-IsBytes}
use ezwebsocket.Receive.Frames.{on_frame_whole}

-- The connection has told its peer why it closes, and its socket to go down; no message was delivered.
abbrev pub ClosesBy : ℕ → Connection → ℕ → ℕ × Connection → Type 0
ClosesBy code c len out = (out.0 ≤ len) × ClosesWith code c out.1

after_message-ClosesBy :
    (env : Env) (now : Timespec) (len : ℕ) (header : WsHeader) (state : MsgState) (code : ℕ)
    (c0 c : Connection)
    → (state ≡ error) ⊎ (state ≡ no_user_data)
    → ClosesWith code c0 c
    → header.payload_start_offset + header.payload_length ≤ len
    → len < 2 ^ 64
    → Ensures (ClosesBy code c0 len) (after_message env now len header state c)
unfolding after_message
after_message-ClosesBy env now len header error code c0 c which closes fits small =
    let released : release c.last_message ≡ some tt = ground (arith, closes.no_payload) in
    rw released (
      Ensures-some _ (
        omega arith,
        record {
          mask = closes.mask;
          written = closes.written;
          same_delivered = closes.same_delivered;
          no_payload = refl;
          down = closes.down;
        },
      ))
after_message-ClosesBy env now len header no_user_data code c0 c which closes fits small =
    Ensures-some _ (
      omega arith,
      record {
        mask = closes.mask;
        written = closes.written;
        same_delivered = closes.same_delivered;
        no_payload = closes.no_payload;
        down = closes.down;
      },
    )
after_message-ClosesBy env now len header incomplete code c0 c which closes fits small =
    absurd (ground arith)
after_message-ClosesBy env now len header user_data code c0 c which closes fits small =
    absurd (ground arith)

-- A pong was sent with the payload, and the timer of a message that was begun is stopped.
pub record AnswersPing (c : Connection) (msg : List ℕ) (taken : ℕ) (out : ℕ × Connection)
    : Type 0 where
  pub takes : out.0 ≡ taken
  pub mask : ℕ
  pub written : out.1.sent ≡ frame_of pong true (is_client c) mask msg ∷ c.sent
  pub same_but_io : SameButIo c (record (out.1) { tv_sec = c.tv_sec; tv_nsec = c.tv_nsec })
  pub no_sec : out.1.tv_sec ≡ 0
  pub no_nsec : out.1.tv_nsec ≡ 0

after_message-AnswersPing :
    (env : Env) (now : Timespec) (len : ℕ) (header : WsHeader) (state : MsgState)
    (c0 c : Connection) (msg : List ℕ) (taken : ℕ)
    → Pongs c0 msg (state, c)
    → taken ≡ header.payload_start_offset + header.payload_length
    → taken < 2 ^ 64
    → Ensures (AnswersPing c0 msg taken) (after_message env now len header state c)
unfolding after_message
after_message-AnswersPing env now len header no_user_data c0 c msg taken (is, same, pong_sent) size
      small =
    Ensures-some _ (record {
      takes = omega arith;
      mask = pong_sent.0;
      written = pong_sent.1;
      same_but_io = ground arith;
      no_sec = refl;
      no_nsec = refl;
    })
after_message-AnswersPing env now len header error c0 c msg taken (is, same, pong_sent) size small =
    absurd (ground arith)
after_message-AnswersPing env now len header incomplete c0 c msg taken (is, same, pong_sent) size
      small =
    absurd (ground arith)
after_message-AnswersPing env now len header user_data c0 c msg taken (is, same, pong_sent) size
      small =
    absurd (ground arith)

-- A ping of at most 125 bytes in front of the receive buffer of an open connection, masked or not, is
-- answered with a pong that carries its payload, where memory can be had, `send` takes whole buffers
-- and all fits a `size_t`. The frame and no more is taken, the timer of a begun message is reset, and
-- all else of the connection but what was sent and asked for is as it was.
pub on_frame-AnswersPing :
    (env : Env) (now : Timespec) (c : Connection) (masked : Bool) (mask : ℕ) (msg rest : List ℕ)
    → HasMemory env
    → HasNetwork env
    → IsOpen c
    → IsBytes msg
    → length msg ≤ max_default_payload_length
    → length (frame_of ping true masked mask msg ++ rest) < 2 ^ 64
    → Ensures (AnswersPing c msg (length (frame_of ping true masked mask msg))) (
        on_frame env now c
          (frame_of ping true masked mask msg ++ rest)
          (length (frame_of ping true masked mask msg ++ rest)))
on_frame-AnswersPing env now c masked mask msg rest memory network up hb short small =
    let bytes = frame_of ping true masked mask msg ++ rest in
    let header = decoded ping true masked mask (length msg) in
    let long = length-append (frame_of ping true masked mask msg) rest in
    rw
      (
        on_frame_whole env now c ping true masked mask msg rest (length bytes) refl small,
        handle_message_ping env c bytes header,
      )
      (Ensures-bind
        (handle_ping_message-Pongs env memory network c bytes header msg up refl short
          (read_payload-frame ping true masked mask msg rest hb))
        λ out h.
          after_message-AnswersPing env now (length bytes) header out.0 c out.1 msg
            (length (frame_of ping true masked mask msg)) h (length-frame ping true masked mask msg)
            (omega arith))

-- A close frame in front of the receive buffer of an open connection at rest, masked as the receiver
-- wants it, is answered, where memory can be had, `send` takes whole buffers and all fits a `size_t`:
-- with 1000 where its payload is empty, or a code that may be sent and a reason in UTF-8; with 1002
-- for one byte or another code, and with 1007 for another reason. The socket is told to go down, and
-- no message is delivered.
pub on_frame-ClosesBy :
    (env : Env) (now : Timespec) (c : Connection) (masked : Bool) (mask : ℕ) (msg rest : List ℕ)
    → HasMemory env
    → HasNetwork env
    → IsOpen c
    → IsResting c
    → masked ≡ is_server c
    → IsBytes msg
    → length msg ≤ max_default_payload_length
    → length (frame_of disconnect true masked mask msg ++ rest) < 2 ^ 64
    → Ensures
        (ClosesBy (reply_code msg) c (length (frame_of disconnect true masked mask msg ++ rest)))
        (on_frame env now c
          (frame_of disconnect true masked mask msg ++ rest)
          (length (frame_of disconnect true masked mask msg ++ rest)))
on_frame-ClosesBy env now c masked mask msg rest memory network up resting right hb short small =
    let bytes = frame_of disconnect true masked mask msg ++ rest in
    let header = decoded disconnect true masked mask (length msg) in
    let long = length-append (frame_of disconnect true masked mask msg) rest in
    let whole = length-frame disconnect true masked mask msg in
    rw
      (
        on_frame_whole env now c disconnect true masked mask msg rest (length bytes) refl small,
        handle_message_disconnect env c bytes header,
      )
      (Ensures-bind
        (handle_disconnect_message-Replies env memory network c bytes header msg up resting refl
          right refl short (read_payload-frame disconnect true masked mask msg rest hb) hb)
        λ out h.
          after_message-ClosesBy env now (length bytes) header out.0 (reply_code msg) c out.1 (h.0)
            (h.1) (omega arith) small)

-- A data frame that the abstract receiver does not accept, in front of the receive buffer of an open
-- connection that stands for the pending message, masked as the receiver wants it, closes the
-- connection: with 1007 for a text that is not UTF-8, and with 1002 for a frame that continues nothing
-- or begins a message while another is pending. No message is delivered, the payload is dropped and
-- the socket is told to go down. Memory can be had, `send` takes whole buffers, all fits a `size_t`,
-- bytes of the pending message are kept where another begins, and a continuation is not empty.
pub on_frame-Refuses :
    (env : Env) (now : Timespec) (c : Connection) (p : Pending) (part : Part) (masked : Bool)
    (mask : ℕ) (rest : List ℕ)
    → HasMemory env
    → HasNetwork env
    → IsOpen c
    → Represents p c
    → IsSeen p part
    → assemble p part ≡ none
    → masked ≡ is_server c
    → IsBytes (payload_of part)
    → IsBytes (frame_of (part_opcode part) (is_last part) masked mask (payload_of part) ++ rest)
    → c.last_message.len
        + length (frame_of (part_opcode part) (is_last part) masked mask (payload_of part) ++ rest)
      < 2 ^ 64
    → Ensures
        (ClosesBy (refusal_code p part) c (
          length
            (frame_of (part_opcode part) (is_last part) masked mask (payload_of part) ++ rest)))
        (on_frame env now c
          (frame_of (part_opcode part) (is_last part) masked mask (payload_of part) ++ rest)
          (length
            (frame_of (part_opcode part) (is_last part) masked mask (payload_of part) ++ rest)))
on_frame-Refuses env now c p part masked mask rest memory network up for seen is right hb hf room =
    let msg = payload_of part in
    let opcode = part_opcode part in
    let frame = frame_of opcode (is_last part) masked mask msg in
    let bytes = frame ++ rest in
    let header = decoded opcode (is_last part) masked mask (length msg) in
    let long : length bytes ≡ length frame + length rest = length-append frame rest in
    let whole = length-frame opcode (is_last part) masked mask msg in
    rw
      (on_frame_whole env now c opcode (is_last part) masked mask msg rest (length bytes) refl
        (omega arith))
      (Ensures-bind
        (handle_message-Refuses env memory network p part c bytes header up for seen is
          (record {
            bytes_fit = hf;
            mask_fits = decoded_mask-IsBytes opcode (is_last part) masked mask (length msg);
            inside = omega arith;
            small = omega arith;
          })
          right refl refl (read_payload-frame opcode (is_last part) masked mask msg rest hb) refl
          (omega arith))
        λ out h.
          after_message-ClosesBy env now (length bytes) header out.0 (refusal_code p part) c out.1
            (inl (h.0)) (h.1) (omega arith) (omega arith))
