-- ===== src/Message/Control.antt =====
-- The handlers of control frames, and `parseMessage` as a whole: memory.
use ezwebsocket.Prelude.{
  ℕ, ◌+◌, ◌*◌, ◌≤◌, ◌<◌, ◌%◌, ◌^◌, ◌≡◌, refl, sym, subst, ◌⊎◌, ◌≢◌, if◌then◌else◌, inl, inr, arith,
}
use ezwebsocket.Prelude.{
  Bool, true, false, not, List, [], ◌∷◌, some, ltb, leb, length, drop, bit_or, ◌==◌, ◌&&◌, ◌||◌,
}
use ezwebsocket.Prelude.{
  IsBytes, Ensures, Ensures-bind, Ensures-if, Ensures-some, Ensures-weaken, same,
}
use ezwebsocket.Frame.{
  Opcode, continuation, text, binary, disconnect, ping, pong, WsHeader, max_default_payload_length,
}
use ezwebsocket.Frame.Masking.{read_payload-inside, copy_bytes-inside}
use ezwebsocket.Connection.{
  WsType, client, server, Connection, Env, is_client, is_server, release, malloc,
}
use ezwebsocket.Connection.Invariant.{IsLinked, IsOwned, IsResting, SameButIo}
use ezwebsocket.Connection.Send.{
  send_data_low_level-Sends, IsStopped, close_socket-stops, release-owned, malloc-SameButIo,
  SameButIo-refl, SameButIo-IsLinked,
}
use ezwebsocket.Utf8.{utf8_validate}
use ezwebsocket.Message.{
  MsgState, error, incomplete, no_user_data, user_data, close_with, close_protocol_error,
  close_normal, close_invalid_data, is_ok, check_close_code, send_pong, handle_ping_message,
  handle_pong_message, answer_close, stop_socket, echo_close, handle_disconnect_message,
  handle_message, parse_message,
}
use ezwebsocket.Message.Safety.{
  StateFits, IsHandled, IsReceived, IsKept-refl, SameButIo-IsKept, close_with-IsHandled,
  handle_first-IsHandled,
}
use ezwebsocket.Message.Cont.{handle_cont-IsHandled}

pub SameButIo-trans : {c d e : Connection} → SameButIo c d → SameButIo d e → SameButIo c e
SameButIo-trans first second = ground arith

-- An answer that leaves the message as it was.
sent-IsHandled :
    {c d : Connection} (rc : Bool)
    → IsResting c
    → SameButIo c d
    → IsHandled c ((if rc then no_user_data else error), d)
sent-IsHandled {c} {d} true resting sent = (
  SameButIo-IsKept (IsKept-refl resting.sound) sent,
  (
    subst IsOwned (sym sent.same_message) resting.sound.owned,
    ground (arith, sent.same_message, resting.pending),
  ),
)
sent-IsHandled {c} {d} false resting sent = (
  SameButIo-IsKept (IsKept-refl resting.sound) sent,
  subst (λ m. release m ≡ some tt) (sym sent.same_message)
      (release-owned c.last_message resting.sound.owned),
)

-- The same once the socket is told to go down.
IsKept_stopped :
    {c d e : Connection} (state : MsgState)
    → IsHandled c (state, d)
    → IsStopped d e
    → IsHandled c (state, e)
IsKept_stopped state handled stopped = (
  record {
    same_type = ground (arith, stopped.same_type, handled.0.same_type);
    same_client = ground (arith, stopped.same_client, handled.0.same_client);
    same_delivered = ground (arith, stopped.same_delivered, handled.0.same_delivered);
    linked = stopped.linked;
  },
  subst (StateFits state) (sym stopped.same_message) handled.1,
)

stop_socket-stops :
    (type : WsType) (c : Connection)
    → type ≡ server
    → IsLinked c.socket
    → Ensures (IsStopped c) (stop_socket type c)
unfolding stop_socket
stop_socket-stops server c is linked = close_socket-stops c linked
stop_socket-stops client c is linked = absurd (ground arith)

module _ (env : Env) where
  -- A protocol error and the like, from a connection at rest.
  closes :
      (c : Connection) (code : ℕ) (state : MsgState)
      → state ≢ user_data
      → IsResting c
      → Ensures (IsHandled c) (close_with env c code state)
  closes c code state other resting =
      close_with-IsHandled env c code state other (IsKept-refl resting.sound)
        (release-owned c.last_message resting.sound.owned)

  send_pong-IsHandled :
      (c d : Connection) (bytes : List ℕ) (header : WsHeader)
      → IsResting c
      → SameButIo c d
      → IsReceived bytes header
      → Ensures (IsHandled c) (send_pong env d bytes header)
  unfolding send_pong
  send_pong-IsHandled c d bytes header resting sent received =
      let (msg, read, long, msg_bytes) =
        read_payload-inside bytes header received.bytes_fit received.mask_fits received.inside in
      rw read (
        Ensures-bind
          (send_data_low_level-Sends env d pong true (is_client d) msg
            (SameButIo-IsLinked sent resting.sound.linked))
          λ out sent'. Ensures-some _ (sent-IsHandled out.0 resting (SameButIo-trans sent sent')))

  handle_ping-IsHandled :
      (c : Connection) (bytes : List ℕ) (header : WsHeader)
      → IsResting c
      → IsReceived bytes header
      → Ensures (IsHandled c) (handle_ping_message env c bytes header)
  unfolding handle_ping_message
  handle_ping-IsHandled c bytes header resting received =
      Ensures-if (not header.fin) (λ _. closes c close_protocol_error error (λ e. cc) resting)
        λ _.
          Ensures-if (ltb max_default_payload_length header.payload_length)
            (λ _. closes c close_protocol_error no_user_data (λ e. cc) resting)
            λ _.
              Ensures-if (header.masked && not (header.payload_length == 0))
                (λ _.
                  let asked = malloc-SameButIo env header.payload_length (SameButIo-refl c) in
                  Ensures-if (malloc env c header.payload_length).0
                    (λ _. send_pong-IsHandled c _ bytes header resting asked received)
                    (λ _. Ensures-some _ (sent-IsHandled false resting asked)))
                (λ _. send_pong-IsHandled c c bytes header resting (SameButIo-refl c) received)

  handle_pong-IsHandled :
      (c : Connection) (header : WsHeader)
      → IsResting c
      → Ensures (IsHandled c) (handle_pong_message env c header)
  unfolding handle_pong_message
  handle_pong-IsHandled c header resting =
      Ensures-if (header.fin && leb header.payload_length max_default_payload_length)
        (λ _. Ensures-some _ (sent-IsHandled true resting (SameButIo-refl c)))
        (λ _. closes c close_protocol_error error (λ e. cc) resting)

  answer_close-IsHandled :
      (c : Connection) (b0 b1 : ℕ) (reason : List ℕ)
      → IsResting c
      → Ensures (IsHandled c) (answer_close env c (b0 ∷ b1 ∷ reason))
  unfolding answer_close
  answer_close-IsHandled c b0 b1 reason resting =
      Ensures-if (not (check_close_code (bit_or (b0 * 2 ^ 8) b1)))
        (λ _. closes c close_protocol_error error (λ e. cc) resting)
        λ _.
          Ensures-if (length (b0 ∷ b1 ∷ reason) == 2 || is_ok (utf8_validate reason 0).0)
            (λ _. closes c close_normal no_user_data (λ e. cc) resting)
            (λ _. closes c close_invalid_data error (λ e. cc) resting)

  answers :
      (c : Connection) (payload : List ℕ)
      → IsResting c
      → 2 ≤ length payload
      → Ensures (IsHandled c) (answer_close env c payload)
  answers c [] resting long = absurd (omega arith)
  answers c (b0 ∷ []) resting long = absurd (omega arith)
  answers c (b0 ∷ b1 ∷ reason) resting long = answer_close-IsHandled c b0 b1 reason resting

  -- A close frame that is masked the wrong way is sent back by a server.
  echo_close-IsHandled :
      (c : Connection) (bytes : List ℕ) (header : WsHeader)
      → IsResting c
      → IsReceived bytes header
      → c.ws_type ≡ server
      → Ensures (IsHandled c) (echo_close env c bytes header)
  unfolding echo_close
  echo_close-IsHandled c bytes header resting received is =
      let (raw, read, long, raw_bytes) =
        copy_bytes-inside bytes header.payload_start_offset header.payload_length received.bytes_fit
          received.inside in
      rw read (
        Ensures-if (header.payload_length == 2 || not (is_ok (utf8_validate (drop 2 raw) 0).0))
          (λ _.
            Ensures-bind
              (send_data_low_level-Sends env c disconnect true (is_client c) raw
                resting.sound.linked)
              λ out sent.
                let serves : out.1.ws_type ≡ server = ground (arith, sent.same_type) in
                Ensures-bind
                  (stop_socket-stops _ out.1 serves (SameButIo-IsLinked sent resting.sound.linked))
                  λ d stopped.
                    Ensures-some _ (IsKept_stopped _ (sent-IsHandled out.0 resting sent) stopped))
          (λ _. closes c close_invalid_data error (λ e. cc) resting))

  handle_disconnect-IsHandled :
      (c : Connection) (bytes : List ℕ) (header : WsHeader)
      → IsResting c
      → IsReceived bytes header
      → (c.ws_type ≡ server) ⊎ (header.masked ≡ false)
      → Ensures (IsHandled c) (handle_disconnect_message env c bytes header)
  unfolding handle_disconnect_message
  handle_disconnect-IsHandled c bytes header resting received serves =
      Ensures-if
        (not (
          header.fin
          && not (header.payload_length == 1)
          && leb header.payload_length max_default_payload_length))
        (λ _. closes c close_protocol_error error (λ e. cc) resting)
        λ fits.
          Ensures-if (header.payload_length == 0)
            (λ _. closes c close_normal no_user_data (λ e. cc) resting)
            λ some_left.
              Ensures-if (same header.masked (is_server c))
                (λ right.
                  let (payload, read, long, payload_bytes) =
                    read_payload-inside bytes header received.bytes_fit received.mask_fits
                      received.inside in
                  rw read (answers c payload resting (ground arith)))
                (λ wrong. echo_close-IsHandled c bytes header resting received (ground arith))

  pub handle_message-IsHandled :
      (opcode : Opcode) (c : Connection) (bytes : List ℕ) (header : WsHeader)
      → IsResting c
      → IsReceived bytes header
      → c.last_message.len + length bytes < 2 ^ 64
      → (c.ws_type ≡ server) ⊎ (header.masked ≡ false)
      → Ensures (IsHandled c) (handle_message env opcode c bytes header)
  unfolding handle_message
  handle_message-IsHandled text c bytes header resting received room serves =
      handle_first-IsHandled env c bytes header resting.sound received
  handle_message-IsHandled binary c bytes header resting received room serves =
      handle_first-IsHandled env c bytes header resting.sound received
  handle_message-IsHandled continuation c bytes header resting received room serves =
      let inside = received.inside in
      handle_cont-IsHandled env c bytes header resting received (omega arith)
  handle_message-IsHandled ping c bytes header resting received room serves =
      handle_ping-IsHandled c bytes header resting received
  handle_message-IsHandled pong c bytes header resting received room serves =
      handle_pong-IsHandled c header resting
  handle_message-IsHandled disconnect c bytes header resting received room serves =
      handle_disconnect-IsHandled c bytes header resting received serves

  -- `parseMessage` on a connection at rest, with a receive buffer of bytes that holds what was
  -- received, returns for every header with a mask of bytes whose frame's end does not wrap around,
  -- where the lengths fit a `size_t` and a client is given no masked frame: it reads inside the
  -- buffer, frees every buffer with the function that fits it, and leaves the connection's type,
  -- sockets and delivered messages and the message as its answer says: releasable after an error,
  -- unfinished, or complete. Unless it answers that the frame is incomplete, the whole frame was
  -- received.
  pub parse_message-IsHandled :
      (c : Connection) (bytes : List ℕ) (len : ℕ) (header : WsHeader)
      → IsResting c
      → IsBytes bytes
      → IsBytes header.mask
      → len ≤ length bytes
      → header.payload_start_offset + header.payload_length < 2 ^ 64
      → c.last_message.len + length bytes < 2 ^ 64
      → (c.ws_type ≡ server) ⊎ (header.masked ≡ false)
      → Ensures
          (λ out.
            IsHandled c out
            × ((out.0 ≡ incomplete) ⊎ (header.payload_start_offset + header.payload_length ≤ len)))
          (parse_message env c bytes len header)
  unfolding parse_message
  parse_message-IsHandled c bytes len header resting hb hm fits no_wrap room serves =
      Ensures-if (ltb len ((header.payload_start_offset + header.payload_length) % 2 ^ 64))
        (λ more.
          Ensures-some _
            ((IsKept-refl resting.sound, (resting.sound.owned, resting.pending)), inl refl))
        λ whole.
          let inside : header.payload_start_offset + header.payload_length ≤ len = ground arith in
          Ensures-weaken
            (handle_message-IsHandled header.opcode c bytes header resting
              (record { bytes_fit = hb; mask_fits = hm; inside = omega arith; small = omega arith })
              room serves)
            (λ out handled. (handled, inr inside))
