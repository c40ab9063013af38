-- ===== src/Message/Masking.antt =====
-- A close frame that is masked the wrong way.
use ezwebsocket.Prelude.{ℕ, ◌≡◌, refl, ◌∙◌, arith, if◌then◌else◌, ◌>>=◌, ◌==◌}
use ezwebsocket.Prelude.{true, not, ◌||◌, List, Option, none, some, drop}
use ezwebsocket.Frame.{WsHeader, disconnect, copy_bytes}
use ezwebsocket.Utf8.{utf8_validate}
use ezwebsocket.Connection.{WsType, client, server, Connection, Env, is_client, send_data_low_level}
use ezwebsocket.Connection.Invariant.{IsLinked}
use ezwebsocket.Connection.Send.{send_data_low_level-Sends}
use ezwebsocket.Message.{
  MsgState, error, no_user_data, close_with, close_invalid_data, is_ok, stop_socket, echo_close,
  handle_disconnect_message,
}

-- A client that has no socket in its own descriptor cannot be told to go down.
stop_client :
    (type : WsType) (c : Connection)
    → type ≡ client
    → c.client_socket ≡ none
    → stop_socket type c ≡ none
unfolding stop_socket
stop_client client c is missing = rw missing refl
stop_client server c is missing = absurd (ground arith)

echo_then :
    (env : Env) (c : Connection) (raw : List ℕ)
    → IsLinked c.socket
    → c.ws_type ≡ client
    → c.client_socket ≡ none
    → ◌≡◌ {A = Option (MsgState × Connection)}
        (do
          (sent, c') ← send_data_low_level env c disconnect true (is_client c) raw
          c'' ← stop_socket c'.ws_type c'
          some ((if sent then no_user_data else error), c''))
        none
echo_then env c raw linked is missing =
    let out = send_data_low_level-Sends env c disconnect true (is_client c) raw linked in
    let stops =
      stop_client out.result.1.ws_type out.result.1 (out.holds.same_type ∙ is)
        (out.holds.same_client ∙ missing) in
    rw (out.returns, stops) refl

echo_close-faults :
    (env : Env) (c : Connection) (bytes : List ℕ) (header : WsHeader)
    → IsLinked c.socket
    → c.ws_type ≡ client
    → c.client_socket ≡ none
    → header.payload_length ≡ 2
    → echo_close env c bytes header ≡ none
unfolding echo_close
echo_close-faults env c bytes header linked is missing two =
    by_raw (copy_bytes bytes header.payload_start_offset header.payload_length)
  where
    by_raw :
        (copied : Option (List ℕ))
        → (do
          raw ← copied
          if header.payload_length == 2 || not (is_ok (utf8_validate (drop 2 raw) 0).0)
              then (do
                (sent, c') ← send_data_low_level env c disconnect true (is_client c) raw
                c'' ← stop_socket c'.ws_type c'
                some ((if sent then no_user_data else error), c''))
              else close_with env c close_invalid_data error)
          ≡ none
    by_raw none = refl
    by_raw (some raw) =
        let short : (header.payload_length == 2 || not (is_ok (utf8_validate (drop 2 raw) 0).0))
            ≡ true =
          ground arith in
        rw short (echo_then env c raw linked is missing)

-- The handler faults on a masked close frame with a code and nothing else.
pub handle_disconnect_message-faults :
    (env : Env) (c : Connection) (bytes : List ℕ) (header : WsHeader)
    → IsLinked c.socket
    → c.ws_type ≡ client
    → c.client_socket ≡ none
    → header.fin ≡ true
    → header.masked ≡ true
    → header.payload_length ≡ 2
    → handle_disconnect_message env c bytes header ≡ none
unfolding handle_disconnect_message
handle_disconnect_message-faults env c bytes header linked is missing last masked two =
    ground (arith, echo_close-faults env c bytes header linked is missing two)
