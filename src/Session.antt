-- ===== src/Session.antt =====
-- The life of a connection in lib/ezwebsocket.c: `websocketServer_onOpen`, `websocketClient_onOpen`,
-- `websocket_onMessage` with its opening handshake, and `websocket_onClose`.
pub mod Opening
pub mod Closing
pub mod Stream
pub mod Examples
use ezwebsocket.Prelude.{
  ℕ, ◌+◌, ◌%◌, ◌^◌, Bool, true, false, List, [], ◌∷◌, Option, none, some, if◌then◌else◌, ◌>>=◌,
  length,
}
use ezwebsocket.Connection.{
  WsType, client, server, WsState, handshake, connected, closed, SocketState, established,
  text_data, Connection, Env, LastMessage, release, socket_server_send, socket_client_send,
}
use ezwebsocket.Base64.{base64_encode}
use ezwebsocket.Handshake.{
  parse_http_header, calculate_accept, check_reply, handshake_request, handshake_reply,
}
use ezwebsocket.Receive.{Timespec, on_frame}

-- A callback that gives the connection its user data, and may use the connection.
abbrev pub OpenCallback : Type 0
OpenCallback = Connection → Option (ℕ × Connection)

-- What a connection is set up with: the hash, whether the block of a string can be had, the key that
-- the client sent, and the callbacks, `none` where they are NULL; a server's `on_close` is
-- `ws_onCloseLegacy` where `ws_onClose` is NULL.
pub record Setup : Type 0 where
  pub sha1 : List ℕ → List ℕ
  pub encode_ok : ℕ → Bool
  pub ws_key : List ℕ
  pub endpoint : List ℕ
  pub address : List ℕ
  pub port : List ℕ
  pub on_open : Option OpenCallback
  pub on_open_legacy : Option OpenCallback
  pub on_close : Option (Connection → Option Connection)

-- The connection of `websocketServer_onOpen`, cleared by `memset`.
pub server_opened : Connection
server_opened = record {
  ws_type = server;
  state = handshake;
  last_message = record {
    data_type = text_data;
    first_received = false;
    complete = false;
    utf8_handle = 0;
    len = 0;
    payload = none;
  };
  user_data = 0;
  tv_sec = 0;
  tv_nsec = 0;
  socket = some established;
  client_socket = none;
  sent = [];
  delivered = [];
  allocations = 0;
  draws = 0;
}

-- A callback, where there is one, and the user data that it returns.
pub call_on_open : Option OpenCallback → Connection → Option Connection
call_on_open none c = some c
call_on_open (some callback) c = do (user, c') ← callback c; some (record c' { user_data = user })

module _ (setup : Setup) (env : Env) where
  -- `sendWsHandshakeReply`, whose result nobody looks at.
  pub send_reply : Connection → List ℕ → Option Connection
  send_reply c reply_key = elim (handshake_reply reply_key) [
    | none ↦ some c
    | some reply ↦ (do (sent, c') ← socket_server_send env c reply; some c')
  ]

  -- The server's handshake, once the key is found.
  pub accept_key : Connection → ℕ → List ℕ → Option (ℕ × Connection)
  accept_key c len key = elim (calculate_accept setup.sha1 setup.encode_ok key) [
    | none ↦ some (0, c)
    | some reply_key ↦ (do
      c1 ← send_reply c reply_key
      c2 ← call_on_open setup.on_open (record c1 { state = connected })
      c3 ← call_on_open setup.on_open_legacy c2
      some (len, c3))
  ]

  -- `WS_STATE_HANDSHAKE` of a server.
  pub server_handshake : Connection → List ℕ → ℕ → Option (ℕ × Connection)
  server_handshake c msg len = do
    result ← parse_http_header msg len
    elim result [ none ↦ some (len, c) | some key ↦ accept_key c len key ]

  -- `WS_STATE_HANDSHAKE` of a client; without a callback the user data is NULL.
  pub client_handshake : Connection → List ℕ → ℕ → Option (ℕ × Connection)
  client_handshake c msg len = do
    (right, header_len) ← check_reply setup.sha1 setup.encode_ok setup.ws_key msg len
    if right
        then (do
          c' ← call_on_open setup.on_open (record c { state = connected; user_data = 0 })
          some (header_len, c'))
        else some (header_len, c)

  -- The `switch` of `websocket_onMessage` on the state and the type.
  pub on_state : WsState → WsType → Timespec → Connection → List ℕ → ℕ → Option (ℕ × Connection)
  on_state handshake server now c msg len = server_handshake c msg len
  on_state handshake client now c msg len = client_handshake c msg len
  on_state connected type now c msg len = on_frame env now c msg len
  on_state closed type now c msg len = some (len, c)

  -- `websocket_onMessage` of descriptors that are not NULL; the number is what it returns.
  pub websocket_on_message : Timespec → Connection → List ℕ → ℕ → Option (ℕ × Connection)
  websocket_on_message now c msg len = on_state c.state c.ws_type now c msg len

  -- `websocketClient_onOpen` with `sendWsHandshakeRequest`, once its strings are built; where the
  -- request cannot be sent the connection is closed, and the thread is given NULL for it.
  pub client_on_open : Connection → Option Connection
  client_on_open c = do
    (sent, c') ←
        socket_client_send env c
          (handshake_request setup.endpoint setup.address setup.port setup.ws_key)
    some (if sent then c' else record c' { state = closed })

  -- `websocket_onClose` of a descriptor that is not NULL, up to the references that it gives back.
  pub websocket_on_close : Connection → Option Connection
  websocket_on_close c = do
    released ← release c.last_message
    let c' = record c { last_message = record (c.last_message) { payload = none } }
    elim c.state [
      | connected ↦ elim setup.on_close [
        | none ↦ some (record c' { state = closed })
        | some callback ↦ callback (record c' { state = closed })
      ]
      | handshake ↦ some c'
      | closed ↦ some c'
    ]
