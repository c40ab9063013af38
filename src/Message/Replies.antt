-- ===== src/Message/Replies.antt =====
-- What the message handlers answer: pongs, and close frames.
use ezwebsocket.Prelude.{
  ℕ, ◌+◌, ◌*◌, ◌≤◌, ◌<◌, ◌≡◌, refl, ap₂, sym, subst, ◌∙◌, if◌then◌else◌, ◌⊎◌, inl, inr, arith,
}
use ezwebsocket.Prelude.{
  Bool, true, false, not, ◌&&◌, ◌||◌, List, [], ◌∷◌, Option, some, length, ltb, leb, ◌==◌, same,
  IsBytes,
}
use ezwebsocket.Prelude.{
  Ensures, Ensures-both, Ensures-if, Ensures-bind, Ensures-some, Ensures-weaken,
}
use ezwebsocket.Prelude.Bits.{bit_or_field}
use ezwebsocket.Frame.{WsHeader, ping, pong, disconnect, read_payload, max_default_payload_length}
use ezwebsocket.Utf8.{utf8_validate}
use ezwebsocket.Utf8.Fragments.{validate_nil}
use ezwebsocket.Connection.{
  established, connected, Connection, Env, is_client, is_server, frame_of, release, malloc,
}
use ezwebsocket.Connection.Invariant.{IsResting, SameButIo}
use ezwebsocket.Connection.Send.{
  HasMemory, HasNetwork, send_data_low_level-Writes, send_data_low_level-Sends, release-owned,
  malloc-SameButIo, SameButIo-refl,
}
use ezwebsocket.Connection.Close.{
  ClosesWith, malloc-sent, malloc-got, websocket_close_connection-ClosesWith,
}
use ezwebsocket.Message.{
  MsgState, error, no_user_data, close_with, close_protocol_error, close_normal, close_invalid_data,
  is_ok, check_close_code, send_pong, handle_ping_message, answer_close, handle_disconnect_message,
  handle_message,
}
use ezwebsocket.Message.Control.{SameButIo-trans}

-- An open connection.
abbrev pub IsOpen : Connection → Type 0
IsOpen c = (c.socket ≡ some established) × (c.state ≡ connected)

-- The answer to a ping: a pong with its payload, and nothing else has changed.
abbrev pub Pongs : Connection → List ℕ → MsgState × Connection → Type 0
Pongs c msg out =
    (out.0 ≡ no_user_data)
    × SameButIo c out.1
    × ((mask : ℕ) × (out.1.sent ≡ frame_of pong true (is_client c) mask msg ∷ c.sent))

-- The closing code that answers the payload of a close frame.
abbrev pub reply_code : List ℕ → ℕ
reply_code [] = close_normal
reply_code (b0 ∷ []) = close_protocol_error
reply_code (b0 ∷ b1 ∷ reason) =
    if not (check_close_code (b0 * 256 + b1))
    then close_protocol_error
    else if is_ok (utf8_validate reason 0).0
    then close_normal
    else close_invalid_data

-- The connection has said that it closes, with the code.
abbrev pub Replies : ℕ → Connection → MsgState × Connection → Type 0
Replies code c out = ((out.0 ≡ error) ⊎ (out.0 ≡ no_user_data)) × ClosesWith code c out.1

pub client_same : (c d : Connection) → d.ws_type ≡ c.ws_type → is_client d ≡ is_client c
client_same c d kept = ground arith

-- An empty reason is valid.
good_reason :
    (b0 b1 : ℕ) (reason : List ℕ)
    → (length (b0 ∷ b1 ∷ reason) == 2 || is_ok (utf8_validate reason 0).0)
      ≡ is_ok (utf8_validate reason 0).0
good_reason b0 b1 [] = ground (arith, validate_nil 0)
good_reason b0 b1 (x ∷ reason) = ground arith

reply_if :
    {c : Connection} {m n : Option (MsgState × Connection)} (b : Bool) (x y : ℕ)
    → (b ≡ true → Ensures (Replies x c) m)
    → (b ≡ false → Ensures (Replies y c) n)
    → Ensures (Replies (if b then x else y) c) (if b then m else n)
reply_if true x y h k = h refl
reply_if false x y h k = k refl

module _ (env : Env) (memory : HasMemory env) (network : HasNetwork env) where
  send_pong-Pongs :
      (c d : Connection) (bytes : List ℕ) (header : WsHeader) (msg : List ℕ)
      → IsOpen c
      → SameButIo c d
      → d.sent ≡ c.sent
      → read_payload bytes header ≡ some msg
      → Ensures (Pongs c msg) (send_pong env d bytes header)
  unfolding send_pong
  send_pong-Pongs c d bytes header msg up kept fresh read = rw read (
      Ensures-bind
        (Ensures-both
          (send_data_low_level-Writes env memory network d pong true (is_client d) msg
            (kept.same_socket ∙ up.0) (kept.same_state ∙ up.1))
          (send_data_low_level-Sends env d pong true (is_client d) msg (ground arith)))
        λ out h. Ensures-some _ (
          ground (arith, h.0.all_sent),
          SameButIo-trans kept (h.1),
          (
            h.0.mask,
            h.0.written
                ∙ ap₂ (λ b sent. frame_of pong true b h.0.mask msg ∷ sent)
                    (client_same c d kept.same_type) fresh,
          ),
        ))

  -- A ping is answered.
  pub handle_ping_message-Pongs :
      (c : Connection) (bytes : List ℕ) (header : WsHeader) (msg : List ℕ)
      → IsOpen c
      → header.fin ≡ true
      → header.payload_length ≤ max_default_payload_length
      → read_payload bytes header ≡ some msg
      → Ensures (Pongs c msg) (handle_ping_message env c bytes header)
  unfolding handle_ping_message
  handle_ping_message-Pongs c bytes header msg up last short read =
      Ensures-if (not header.fin) (λ wrong. absurd (ground arith))
        λ _.
          Ensures-if (ltb max_default_payload_length header.payload_length)
            (λ long. absurd (ground arith))
            λ _.
              Ensures-if (header.masked && not (header.payload_length == 0))
                (λ _.
                  Ensures-if (malloc env c header.payload_length).0
                    (λ _.
                      send_pong-Pongs c _ bytes header msg up
                        (malloc-SameButIo env header.payload_length (SameButIo-refl c))
                        (malloc-sent env c header.payload_length) read)
                    (λ full.
                      absurd
                        (ground (arith, malloc-got env memory network c header.payload_length))))
                (λ _. send_pong-Pongs c c bytes header msg up (SameButIo-refl c) refl read)

  -- A connection that can release its message closes.
  pub close_with_released :
      (c : Connection) (code : ℕ) (state : MsgState)
      → IsOpen c
      → release c.last_message ≡ some tt
      → Ensures (λ out. (out.0 ≡ state) × ClosesWith code c out.1) (close_with env c code state)
  unfolding close_with
  close_with_released c code state up released =
      Ensures-bind
        (websocket_close_connection-ClosesWith env memory network c code (up.0) (up.1) released)
        λ d closes. Ensures-some _ (refl, closes)

  close_with-Replies :
      (c : Connection) (code : ℕ) (state : MsgState)
      → (state ≡ error) ⊎ (state ≡ no_user_data)
      → IsOpen c
      → IsResting c
      → Ensures (Replies code c) (close_with env c code state)
  close_with-Replies c code state which up resting =
      Ensures-weaken
        (close_with_released c code state up (release-owned c.last_message resting.sound.owned))
        λ out h. (subst (λ s. (s ≡ error) ⊎ (s ≡ no_user_data)) (sym (h.0)) which, h.1)

  answer_close-Replies :
      (c : Connection) (b0 b1 : ℕ) (reason : List ℕ)
      → IsOpen c
      → IsResting c
      → b1 < 256
      → Ensures (Replies (reply_code (b0 ∷ b1 ∷ reason)) c) (answer_close env c (b0 ∷ b1 ∷ reason))
  unfolding answer_close
  answer_close-Replies c b0 b1 reason up resting byte =
      rw (bit_or_field 8 b0 b1 byte, good_reason b0 b1 reason)
        (reply_if (not (check_close_code (b0 * 256 + b1))) close_protocol_error _
          (λ _. close_with-Replies c close_protocol_error error (inl refl) up resting)
          λ _.
            reply_if (is_ok (utf8_validate reason 0).0) close_normal close_invalid_data
              (λ _. close_with-Replies c close_normal no_user_data (inr refl) up resting)
              (λ _. close_with-Replies c close_invalid_data error (inl refl) up resting))

  -- A close frame is answered.
  pub handle_disconnect_message-Replies :
      (c : Connection) (bytes : List ℕ) (header : WsHeader) (msg : List ℕ)
      → IsOpen c
      → IsResting c
      → header.fin ≡ true
      → header.masked ≡ is_server c
      → length msg ≡ header.payload_length
      → header.payload_length ≤ max_default_payload_length
      → read_payload bytes header ≡ some msg
      → IsBytes msg
      → Ensures (Replies (reply_code msg) c) (handle_disconnect_message env c bytes header)
  unfolding handle_disconnect_message
  handle_disconnect_message-Replies c bytes header [] up resting last right long short read byte =
      Ensures-if
        (not (
          header.fin
          && not (header.payload_length == 1)
          && leb header.payload_length max_default_payload_length))
        (λ wrong. absurd (ground arith))
        λ _.
          Ensures-if (header.payload_length == 0)
            (λ _. close_with-Replies c close_normal no_user_data (inr refl) up resting)
            (λ more. absurd (ground arith))
  handle_disconnect_message-Replies c bytes header (b0 ∷ []) up resting last right long short read
        byte =
      Ensures-if
        (not (
          header.fin
          && not (header.payload_length == 1)
          && leb header.payload_length max_default_payload_length))
        (λ _. close_with-Replies c close_protocol_error error (inl refl) up resting)
        (λ good. absurd (ground arith))
  handle_disconnect_message-Replies c bytes header (b0 ∷ b1 ∷ reason) up resting last right long
        short read byte =
      Ensures-if
        (not (
          header.fin
          && not (header.payload_length == 1)
          && leb header.payload_length max_default_payload_length))
        (λ wrong. absurd (ground arith))
        λ _.
          Ensures-if (header.payload_length == 0) (λ none_there. absurd (ground arith))
            λ _.
              Ensures-if (same header.masked (is_server c))
                (λ _. rw read (answer_close-Replies c b0 b1 reason up resting (byte.1.0)))
                (λ wrong. absurd (ground arith))

-- The switch of `parseMessage` on these frames.
pub handle_message_ping :
    (env : Env) (c : Connection) (bytes : List ℕ) (header : WsHeader)
    → handle_message env ping c bytes header ≡ handle_ping_message env c bytes header
unfolding handle_message
handle_message_ping env c bytes header = refl

pub handle_message_disconnect :
    (env : Env) (c : Connection) (bytes : List ℕ) (header : WsHeader)
    → handle_message env disconnect c bytes header ≡ handle_disconnect_message env c bytes header
unfolding handle_message
handle_message_disconnect env c bytes header = refl
