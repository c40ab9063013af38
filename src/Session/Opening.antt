-- ===== src/Session/Opening.antt =====
-- The opening handshake of a client and a server that are connected to each other.
use ezwebsocket.Prelude.{
  ℕ, ◌≡◌, refl, arith, true, List, ◌∷◌, none, some, length, All, ◌++◌, Ensures, Ensures-bind,
  Ensures-some, Ensures-weaken, ◌∙◌,
}
use ezwebsocket.Connection.{
  WsType, client, server, WsState, handshake, connected, closed, established, Connection, Env,
}
use ezwebsocket.Connection.Send.{HasNetwork, socket_server_send-writes, socket_client_send-writes}
use ezwebsocket.Handshake.{
  is_graph, key_id, key_length, version, request_start, parse_http_header, calculate_accept,
  check_reply, handshake_request, handshake_reply,
}
use ezwebsocket.Handshake.Search.{absent}
use ezwebsocket.Handshake.Agreement.{parse_http_header-request, check_reply-handshake_reply}
use ezwebsocket.Receive.{Timespec}
use ezwebsocket.Session.{
  Setup, call_on_open, send_reply, accept_key, server_handshake, client_handshake, on_state,
  websocket_on_message, client_on_open,
}

-- A connection in its handshake, over a socket that is up.
pub record IsOpening (type : WsType) (c : Connection) : Type 0 where
  pub is_type : c.ws_type ≡ type
  pub is_handshake : c.state ≡ handshake
  pub is_up : c.socket ≡ some established

-- The hash has 20 bytes, the strings can be had and no callback is set.
pub record IsPlain (setup : Setup) : Type 0 where
  pub hash_size : (text : List ℕ) → length (setup.sha1 text) ≡ 20
  pub no_callback : setup.on_open ≡ none
  pub no_legacy : setup.on_open_legacy ≡ none

-- The server is connected, and what it sent makes the client connected too.
abbrev pub Opens : Setup → Env → Timespec → Connection → ℕ → ℕ × Connection → Type 0
Opens setup env now client_side len out =
    (out.0 ≡ len)
    × (out.1.state ≡ connected)
    × ((reply : List ℕ) (older : List (List ℕ))
        → out.1.sent ≡ reply ∷ older
        → Ensures (λ back. (back.0 ≡ length reply) × (back.1.state ≡ connected))
            (websocket_on_message setup env now client_side reply (length reply)))

client_handshake-connects :
    (setup : Setup) (env : Env) (c : Connection) (reply : List ℕ)
    → setup.on_open ≡ none
    → check_reply setup.sha1 setup.encode_ok setup.ws_key reply (length reply)
      ≡ some (true, length reply)
    → Ensures
        (λ back. (back.0 ≡ length reply) × (back.1.state ≡ connected))
        (client_handshake setup env c reply (length reply))
unfolding client_handshake call_on_open
client_handshake-connects setup env c reply plain right =
    rw (right, plain) (Ensures-some _ (refl, refl))

module _ (setup : Setup) (env : Env) (now : Timespec) where
  on_state_handshake :
      {P : ℕ × Connection → Type 0} (state : WsState) (type : WsType) (c : Connection)
      (msg : List ℕ) (len : ℕ)
      → state ≡ handshake
      → Ensures P (elim type [
        | server ↦ server_handshake setup env c msg len
        | client ↦ client_handshake setup env c msg len
      ])
      → Ensures P (on_state setup env state type now c msg len)
  unfolding on_state
  on_state_handshake handshake server c msg len is e = e
  on_state_handshake handshake client c msg len is e = e
  on_state_handshake connected type c msg len is e = absurd (ground arith)
  on_state_handshake closed type c msg len is e = absurd (ground arith)

  send_reply-writes :
      (c : Connection) (accept reply : List ℕ)
      → HasNetwork env
      → c.socket ≡ some established
      → handshake_reply accept ≡ some reply
      → Ensures (λ d. d.sent ≡ reply ∷ c.sent) (send_reply setup env c accept)
  unfolding send_reply
  send_reply-writes c accept reply network up fits =
      rw (fits, send_reply)
        (Ensures-bind (socket_server_send-writes env network c reply up)
          λ out h. Ensures-some _ h.1)

  -- The server is connected once it has found the key, and has sent the reply.
  accept_key-connects :
      (c : Connection) (len : ℕ) (accept reply : List ℕ)
      → HasNetwork env
      → IsPlain setup
      → c.socket ≡ some established
      → calculate_accept setup.sha1 setup.encode_ok setup.ws_key ≡ some accept
      → handshake_reply accept ≡ some reply
      → Ensures
          (λ out. (out.0 ≡ len) × (out.1.state ≡ connected) × (out.1.sent ≡ reply ∷ c.sent))
          (accept_key setup env c len setup.ws_key)
  unfolding accept_key call_on_open
  accept_key-connects c len accept reply network plain up returns fits =
      rw (returns, accept_key)
        (Ensures-bind (send_reply-writes c accept reply network up fits) λ d written.
          rw (plain.no_callback, plain.no_legacy) (Ensures-some _ (refl, refl, written)))

  server_handshake-connects :
      (c : Connection) (accept reply : List ℕ)
      → HasNetwork env
      → IsPlain setup
      → c.socket ≡ some established
      → calculate_accept setup.sha1 setup.encode_ok setup.ws_key ≡ some accept
      → handshake_reply accept ≡ some reply
      → (msg : List ℕ) → parse_http_header msg (length msg) ≡ some (some setup.ws_key)
      → Ensures
          (λ out. (out.0 ≡ length msg) × (out.1.state ≡ connected) × (out.1.sent ≡ reply ∷ c.sent))
          (server_handshake setup env c msg (length msg))
  unfolding server_handshake
  server_handshake-connects c accept reply network plain up returns fits msg found =
      rw found (accept_key-connects c (length msg) accept reply network plain up returns fits)

  -- The opening handshake. A client and a server, each in the handshake over a socket that is up,
  -- where `send` takes whole buffers, the hash has 20 bytes, the accept key can be had, no callback
  -- is set, the key has 24 printable characters and the request does not name the key's field
  -- before its place: the client sends its request; given that, the server consumes it, sends its
  -- reply and is connected; and given the reply, the client consumes it and is connected.
  pub opening_handshake :
      (client_side server_side : Connection) (accept : List ℕ)
      → HasNetwork env
      → IsPlain setup
      → IsOpening client client_side
      → IsOpening server server_side
      → All (λ c. is_graph c ≡ true) setup.ws_key
      → length setup.ws_key ≡ key_length
      → absent key_id
          (request_start setup.endpoint setup.address setup.port)
          (key_id ++ (32 ∷ setup.ws_key ++ version))
        ≡ true
      → calculate_accept setup.sha1 setup.encode_ok setup.ws_key ≡ some accept
      → Ensures
          (λ asked.
            (request : List ℕ) × (asked.sent ≡ request ∷ client_side.sent)
            × Ensures
                (λ out.
                  (out.0 ≡ length request)
                  × (out.1.state ≡ connected)
                  × ((reply : List ℕ) × (out.1.sent ≡ reply ∷ server_side.sent)
                      × Ensures
                          (λ back. (back.0 ≡ length reply) × (back.1.state ≡ connected))
                          (websocket_on_message setup env now asked reply (length reply))))
                (websocket_on_message setup env now server_side request (length request)))
          (client_on_open setup env client_side)
  unfolding client_on_open websocket_on_message
  opening_handshake client_side server_side accept network plain opening_client opening_server
        graphs long free returns =
      let request = handshake_request setup.endpoint setup.address setup.port setup.ws_key in
      let written =
        check_reply-handshake_reply setup.sha1 setup.encode_ok setup.ws_key accept plain.hash_size
          returns in
      let found =
        parse_http_header-request setup.endpoint setup.address setup.port setup.ws_key graphs long
          free in
      Ensures-bind (socket_client_send-writes env network client_side request opening_client.is_up)
        λ out h. rw h.0 (
          Ensures-some _ (
            request,
            h.1,
            on_state_handshake server_side.state server_side.ws_type server_side request
                (length request) opening_server.is_handshake
                (rw opening_server.is_type (
                  Ensures-weaken
                    (server_handshake-connects server_side accept written.result network plain
                      opening_server.is_up returns written.returns request found)
                    (λ done d. (
                      d.0,
                      d.1,
                      (
                        written.result,
                        d.2,
                        on_state_handshake out.1.state out.1.ws_type out.1 written.result
                            (length written.result) (h.2 ∙ opening_client.is_handshake)
                            (rw (h.3, opening_client.is_type)
                              (client_handshake-connects setup env out.1 written.result
                                plain.no_callback written.holds)),
                      ),
                    )))),
          ))
