-- ===== src/Client/Opening.antt =====
-- What a client has taken when it is opened.
use ezwebsocket.Prelude.{ℕ, ◌+◌, ◌%◌, ◌^◌, ◌<◌, ◌≡◌, refl, subst, ◌⊎◌, inr, arith}
use ezwebsocket.Prelude.{Bool, true, false, not, ◌||◌, Option, none, some, if◌then◌else◌, ltb, ◌==◌}
use ezwebsocket.Prelude.{Ensures, Ensures-some, Ensures-if, Ensures-bind}
use ezwebsocket.Receive.{message_timeout_s}
use ezwebsocket.Resources.{Live, take_block_if}
use ezwebsocket.Client.{
  Answers, SocketClient, socket_client_fail, socket_client_open, ClientDesc, ClientConnection,
  websocket_client_close, client_fail, after_socket, open_socket, websocket_client_open,
}
use ezwebsocket.Client.Waiting.{wait_open-ends, some_left}
use ezwebsocket.Client.Closing.{
  AllBut, HoldsSocket, socket_client_close-gives, Holds, with_strings, websocket_client_close-gives,
}

-- OpenSSL objects are lost only where TLS was asked for.
abbrev pub IsBack : Bool → Live → Live → Type 0
IsBack secure before after = (tls : ℕ) × (secure ≡ true ⊎ (tls ≡ 0)) × AllBut tls before after

abbrev tls_of : Bool → ℕ
tls_of secure = if secure then 2 else 0

abbrev OpensSocket : Answers → Live → Option SocketClient × Live → Type 0
OpensSocket a before (none, now) = IsBack a.secure before now
OpensSocket a before (some s, now) =
    (s.has_fd ≡ true)
    × (s.tid_valid ≡ true)
    × HoldsSocket s before now
    × (now.tls ≡ before.tls + tls_of a.secure)

socket_client_fail-gives :
    (a : Answers) (s : SocketClient) (before now : Live) (tls : ℕ)
    → HoldsSocket s before now
    → now.tls ≡ before.tls + tls
    → (a.secure ≡ true) ⊎ (tls ≡ 0)
    → Ensures (OpensSocket a before) (socket_client_fail s now)
unfolding socket_client_fail
socket_client_fail-gives a s before now tls holds lost only =
    Ensures-bind (socket_client_close-gives s before now tls holds lost)
      λ r back. Ensures-some _ (tls, only, back)

socket_client_open-opens :
    (a : Answers) (before : Live) → Ensures (OpensSocket a before) (socket_client_open a before)
unfolding socket_client_open
socket_client_open-opens a before =
    Ensures-if (not a.socket_desc_ok) (λ _. Ensures-some _ (0, inr refl, ground arith))
      λ _.
        Ensures-if (not a.socket_ok)
          (λ _. socket_client_fail-gives a _ before _ 0 (ground arith) (ground arith) (inr refl))
          λ _.
            Ensures-if (not a.connect_ok)
              (λ _.
                socket_client_fail-gives a _ before _ 0 (ground arith) (ground arith) (inr refl))
              λ _.
                Ensures-if (not a.thread_ok)
                  (λ _.
                    socket_client_fail-gives a _ before _ (tls_of a.secure) (ground arith)
                      (ground arith) (ground arith))
                  (λ _. Ensures-some _ (refl, refl, ground arith, ground arith))

-- What `websocketClient_open` leaves: after a failure all is back, and else a connection with one
-- reference, whose `websocketClient_close` gives back all but the OpenSSL objects.
abbrev pub OpensClient : Answers → Live → Option ClientConnection × Live → Type 0
OpensClient a before (none, now) = IsBack a.secure before now
OpensClient a before (some c, now) =
    (c.cnt ≡ 1) × Ensures (AllBut (tls_of a.secure) before) (websocket_client_close (some c) now)

client_fail-gives :
    (a : Answers) (c : ClientConnection) (before now : Live) (tls : ℕ)
    → c.cnt ≡ 1
    → Holds c before now
    → now.tls ≡ before.tls + tls
    → (a.secure ≡ true) ⊎ (tls ≡ 0)
    → Ensures (OpensClient a before) (client_fail (some c) now)
unfolding client_fail
client_fail-gives a c before now tls one holds lost only =
    Ensures-bind (websocket_client_close-gives c before now tls one holds lost)
      λ r back. Ensures-some _ (tls, only, back)

late_from_start :
    (a : Answers) (fuel : ℕ)
    → a.clock 0 + message_timeout_s < a.clock fuel
    → a.clock 0 + message_timeout_s < a.clock (0 + fuel)
late_from_start a fuel late =
    subst (λ k. a.clock 0 + message_timeout_s < a.clock k) {x = fuel} (omega arith) late

-- The socket is open, and the key is stored where its block could be had.
socket_opened :
    (fuel : ℕ) (a : Answers) (d : ClientDesc) (before : Live) (out : Option SocketClient × Live)
    → d.ws_key ≡ false
    → a.clock 0 + message_timeout_s < a.clock fuel
    → OpensSocket a (with_strings d before) out
    → Ensures (OpensClient a before) (after_socket fuel a d (out.0) (out.1))
unfolding after_socket
socket_opened fuel a d before (none, now) no_key late (tls, only, back) =
    client_fail-gives a _ before now tls refl (ground arith) (ground arith) only
socket_opened fuel a d before (some s, now) no_key late (fd, tid, holds, lost) =
    Ensures-bind
      (wait_open-ends a.state a.clock (a.clock 0) fuel 0 (late_from_start a fuel late) (
        some_left a.clock (a.clock 0 + message_timeout_s) 0 fuel (ground arith)
          (late_from_start a fuel late)))
      λ opened _.
        let d' : ClientDesc = record d { ws_key = a.key_ok } in
        let c : ClientConnection = record { client_desc = some d'; socket = some s; cnt = 1 } in
        let held : Holds c before (take_block_if a.key_ok now) = ground arith in
        Ensures-if opened
          (λ _. Ensures-some _ (
            refl,
            websocket_client_close-gives c before _ (tls_of a.secure) refl held (ground arith),
          ))
          (λ _.
            client_fail-gives a c before _ (tls_of a.secure) refl held (ground arith)
              (ground arith))

-- `websocketClient_open`, whichever of its calls fail, returns once the clock has passed the timeout of
-- the handshake. Where it answers NULL, every block, descriptor and thread that it took has been given
-- back, once; where it answers a connection, `websocketClient_close` does so. OpenSSL objects may be
-- lost where TLS is asked for: two of them with every connection that was opened and closed.
pub websocket_client_open-OpensClient :
    (fuel : ℕ) (a : Answers) (before : Live)
    → a.clock 0 + message_timeout_s < a.clock fuel
    → Ensures (OpensClient a before) (websocket_client_open fuel a before)
unfolding websocket_client_open open_socket
websocket_client_open-OpensClient fuel a before late =
    Ensures-if (not a.connection_ok)
      (λ _. unfold client_fail websocket_client_close in Ensures-some _ (0, inr refl, ground arith))
      λ _.
        Ensures-if (not a.client_ok)
          (λ _. client_fail-gives a _ before _ 0 refl (ground arith) (ground arith) (inr refl))
          λ _.
            Ensures-if (not a.address_ok)
              (λ _. client_fail-gives a _ before _ 0 refl (ground arith) (ground arith) (inr refl))
              λ _.
                Ensures-if (not a.port_ok)
                  (λ _.
                    client_fail-gives a _ before _ 0 refl (ground arith) (ground arith) (inr refl))
                  λ _.
                    Ensures-if (not a.endpoint_ok)
                      (λ _.
                        client_fail-gives a _ before _ 0 refl (ground arith) (ground arith)
                          (inr refl))
                      λ _.
                        Ensures-if (a.port % 2 ^ 32 == 0 || ltb 65535 (a.port % 2 ^ 32))
                          (λ _.
                            client_fail-gives a _ before _ 0 refl (ground arith) (ground arith)
                              (inr refl))
                          λ _. Ensures-bind (socket_client_open-opens a _) λ out opens.
                            socket_opened fuel a _ before out refl late (
                              subst (λ n. OpensSocket a (record before { blocks = n }) out)
                                {x = before.blocks + 1 + 1 + 1 + 1 + 1} (omega arith) opens)
