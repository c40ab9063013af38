-- ===== src/Client.antt =====
-- Opening and closing a client: `socketClient_open` and `socketClient_close` of
-- lib/socket_client/socket_client.c, built with OpenSSL, and `websocketClient_open`,
-- `websocketClient_close` and `freeConnection` of lib/ezwebsocket.c, as far as resources go. `none` is
-- a resource given back twice. Setting an option of the socket has no consequence for these.
pub mod Closing
pub mod Opening
pub mod Waiting
mod Examples
use ezwebsocket.Prelude.{ℕ, zero, suc, ◌+◌, ◌%◌, ◌^◌, Bool, true, false, not, ◌&&◌, ◌||◌}
use ezwebsocket.Prelude.{Option, none, some, if◌then◌else◌, ltb, ◌==◌, ◌>>=◌}
use ezwebsocket.Connection.{WsState, handshake, connected, closed}
use ezwebsocket.Receive.{message_timeout_s}
use ezwebsocket.Resources.{Live, take_block, take_block_if, take_fd, free_block, close_fd, join}

-- What the calls of the system answer: whether the blocks are there, the socket can be had, connected
-- and served by a thread, what `strtoul` reads from the port, and whether TLS is asked for. The
-- thread's handshake request has its key where `key_ok`, and the state of the connection and the
-- clock are looked at again and again.
pub record Answers : Type 0 where
  pub connection_ok : Bool
  pub client_ok : Bool
  pub address_ok : Bool
  pub port_ok : Bool
  pub endpoint_ok : Bool
  pub port : ℕ
  pub socket_desc_ok : Bool
  pub socket_ok : Bool
  pub connect_ok : Bool
  pub secure : Bool
  pub thread_ok : Bool
  pub key_ok : Bool
  pub state : ℕ → WsState
  pub clock : ℕ → ℕ

-- `struct socket_client_desc`: whether `socketFd` is not -1, and `tidValid`.
pub record SocketClient : Type 0 where
  pub has_fd : Bool
  pub tid_valid : Bool

-- `socketClient_close` of a descriptor, whose thread ends on the request.
pub socket_client_close : SocketClient → Live → Option Live
socket_client_close s r = do
  r1 ← (if s.tid_valid then join r else some r)
  r2 ← (if s.has_fd then close_fd r1 else some r1)
  free_block true r2

-- `ERROR:` of `socketClient_open`.
pub socket_client_fail : SocketClient → Live → Option (Option SocketClient × Live)
socket_client_fail s r = do r' ← socket_client_close s r; some (none, r')

-- `if (socketInit->secure)`: `SSL_CTX_new` and `SSL_new`.
abbrev pub take_tls : Bool → Live → Live
take_tls secure r = if secure then record r { tls = r.tls + 2 } else r

-- `socketClient_open`.
pub socket_client_open : Answers → Live → Option (Option SocketClient × Live)
socket_client_open a r =
    if not a.socket_desc_ok
    then some (none, r)
    else if not a.socket_ok
    then socket_client_fail (record { has_fd = false; tid_valid = false }) (take_block r)
    else if not a.connect_ok
    then socket_client_fail (record { has_fd = true; tid_valid = false }) (take_fd (take_block r))
    else (let r' = take_tls a.secure (take_fd (take_block r)) in
        if not a.thread_ok
        then socket_client_fail (record { has_fd = true; tid_valid = false }) r'
        else some (
          some (record { has_fd = true; tid_valid = true }),
          record r' { threads = r'.threads + 1 },
        ))

-- `struct websocket_client_desc`: which of its strings are not NULL.
pub record ClientDesc : Type 0 where
  pub address : Bool
  pub port : Bool
  pub endpoint : Bool
  pub ws_key : Bool

-- `struct websocket_connection_desc` of a client; `none` is NULL. The last field is its count.
pub record ClientConnection : Type 0 where
  pub client_desc : Option ClientDesc
  pub socket : Option SocketClient
  pub cnt : ℕ

-- The descriptor, all cleared.
abbrev pub no_strings : ClientDesc
no_strings = record { address = false; port = false; endpoint = false; ws_key = false }

-- `if (socketClientDesc != NULL) socketClient_close(socketClientDesc);`
abbrev pub close_if_set : Option SocketClient → Live → Option Live
close_if_set none r = some r
close_if_set (some s) r = socket_client_close s r

-- The strings and the descriptor that has them.
pub free_desc : ClientDesc → Live → Option Live
free_desc d r = do
  r1 ← free_block d.address r
  r2 ← free_block d.port r1
  r3 ← free_block d.endpoint r2
  r4 ← free_block d.ws_key r3
  free_block true r4

-- `freeConnection` of a connection, by what `wsClientDesc` is.
pub free_client : Option ClientDesc → ClientConnection → Live → Option (ClientConnection × Live)
free_client none c r = some (c, r)
free_client (some d) c r = do
  r1 ← close_if_set c.socket r
  r2 ← free_desc d r1
  some (record c { client_desc = none; socket = none }, r2)

-- `freeConnection`.
pub free_connection : ClientConnection → Live → Option (ClientConnection × Live)
free_connection c r = free_client c.client_desc c r

-- `refcnt_unref` of a connection, with `freeConnection` as its destructor.
pub unref_connection : ClientConnection → Live → Option Live
unref_connection c r =
    if c.cnt == 1 then (do (c', r') ← free_connection c r; free_block true r') else some r

-- `websocketClient_close`, after the close frame; a connection that is NULL is left alone.
pub websocket_client_close : Option ClientConnection → Live → Option Live
websocket_client_close none r = some r
websocket_client_close (some c) r = do (c', r') ← free_connection c r; unref_connection c' r'

-- `ERROR:` of `websocketClient_open`.
pub client_fail : Option ClientConnection → Live → Option (Option ClientConnection × Live)
client_fail c r = do r' ← websocket_client_close c r; some (none, r')

-- The loop that waits for the handshake; `fuel` bounds the rounds. The answer is false after the
-- timeout.
pub wait_open : (ℕ → WsState) → (ℕ → ℕ) → ℕ → ℕ → ℕ → Option Bool
wait_open state clock start zero round = none
wait_open state clock start (suc fuel) round =
    let rest = wait_open state clock start fuel (round + 1) in
    elim (state round) [
      | handshake ↦ if ltb (start + message_timeout_s) (clock (round + 1)) then some false else rest
      | connected ↦ some true
      | closed ↦ some true
    ]

-- `websocketClient_open` behind `socketClient_open`. The thread is started, and stores its key.
pub after_socket :
    ℕ → Answers → ClientDesc → Option SocketClient → Live → Option (Option ClientConnection × Live)
after_socket fuel a d none r =
    client_fail (some (record { client_desc = some d; socket = none; cnt = 1 })) r
after_socket fuel a d (some s) r = do
  let c : ClientConnection = record {
    client_desc = some (record d { ws_key = a.key_ok });
    socket = some s;
    cnt = 1;
  }
  opened ← wait_open a.state a.clock (a.clock 0) fuel 0
  if opened
      then some (some c, take_block_if a.key_ok r)
      else client_fail (some c) (take_block_if a.key_ok r)

-- `websocketClient_open` from `socketClient_open` on.
pub open_socket : ℕ → Answers → ClientDesc → Live → Option (Option ClientConnection × Live)
open_socket fuel a d r = do (socket, r1) ← socket_client_open a r; after_socket fuel a d socket r1

-- The connection while its strings are set.
abbrev pub unopened : ClientDesc → Option ClientConnection
unopened d = some (record { client_desc = some d; socket = none; cnt = 1 })

-- `websocketClient_open`.
pub websocket_client_open : ℕ → Answers → Live → Option (Option ClientConnection × Live)
websocket_client_open fuel a r =
    if not a.connection_ok
    then client_fail none r
    else if not a.client_ok
    then client_fail (some (record { client_desc = none; socket = none; cnt = 1 })) (take_block r)
    else (let r0 = take_block (take_block r) in
        let d1 = record no_strings { address = true } in
        let d2 = record d1 { port = true } in
        let d3 = record d2 { endpoint = true } in
        if not a.address_ok
        then client_fail (unopened no_strings) r0
        else if not a.port_ok
        then client_fail (unopened d1) (take_block r0)
        else if not a.endpoint_ok
        then client_fail (unopened d2) (take_block (take_block r0))
        else if a.port % 2 ^ 32 == 0 || ltb 65535 (a.port % 2 ^ 32)
        then client_fail (unopened d3) (take_block (take_block (take_block r0)))
        else open_socket fuel a d3 (take_block (take_block (take_block r0))))
