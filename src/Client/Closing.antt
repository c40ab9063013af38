-- ===== src/Client/Closing.antt =====
-- `freeConnection`, `websocketClient_close` and `socketClient_close`.
use ezwebsocket.Prelude.{ℕ, ◌+◌, ◌≡◌, refl, arith}
use ezwebsocket.Prelude.{Bool, Option, none, some, if◌then◌else◌, ◌==◌}
use ezwebsocket.Prelude.{Ensures, ensure, Ensures-some, Ensures-if, Ensures-bind}
use ezwebsocket.Resources.{Live, take_block}
use ezwebsocket.Client.{
  SocketClient, socket_client_close, ClientDesc, ClientConnection, free_desc, free_client,
  free_connection, unref_connection, websocket_client_close,
}

-- All is back but so many OpenSSL objects.
pub record AllBut (tls : ℕ) (before after : Live) : Type 0 where
  pub same_blocks : after.blocks ≡ before.blocks
  pub same_fds : after.fds ≡ before.fds
  pub same_threads : after.threads ≡ before.threads
  pub same_infos : after.infos ≡ before.infos
  pub lost_tls : after.tls ≡ before.tls + tls

-- What an open socket, or what is left of it, has taken.
abbrev pub HoldsSocket : SocketClient → Live → Live → Type 0
HoldsSocket s before now =
    (now.blocks ≡ before.blocks + 1)
    × (now.fds ≡ before.fds + (if s.has_fd then 1 else 0))
    × (now.threads ≡ before.threads + (if s.tid_valid then 1 else 0))
    × (now.infos ≡ before.infos)

pub socket_client_close-gives :
    (s : SocketClient) (before now : Live) (tls : ℕ)
    → HoldsSocket s before now
    → now.tls ≡ before.tls + tls
    → Ensures (AllBut tls before) (socket_client_close s now)
unfolding socket_client_close
socket_client_close-gives s before now tls holds lost = ensure _ (ground arith)

abbrev pub one_if : Bool → ℕ
one_if b = if b then 1 else 0

-- The blocks of the descriptor and its strings.
abbrev pub strings_of : ClientDesc → ℕ
strings_of d = 1 + one_if d.address + one_if d.port + one_if d.endpoint + one_if d.ws_key

-- What a connection has taken, and nothing else.
abbrev pub HoldsParts : Option ClientDesc → Option SocketClient → Live → Live → Type 0
HoldsParts none none before now =
    (now.blocks ≡ before.blocks + 1)
    × (now.fds ≡ before.fds)
    × (now.threads ≡ before.threads)
    × (now.infos ≡ before.infos)
HoldsParts none (some s) before now = ⊥
HoldsParts (some d) none before now =
    (now.blocks ≡ before.blocks + 1 + strings_of d)
    × (now.fds ≡ before.fds)
    × (now.threads ≡ before.threads)
    × (now.infos ≡ before.infos)
HoldsParts (some d) (some s) before now =
    (now.blocks ≡ before.blocks + 2 + strings_of d)
    × (now.fds ≡ before.fds + one_if s.has_fd)
    × (now.threads ≡ before.threads + one_if s.tid_valid)
    × (now.infos ≡ before.infos)

abbrev pub Holds : ClientConnection → Live → Live → Type 0
Holds c before now = HoldsParts c.client_desc c.socket before now

free_desc-gives :
    (d : ClientDesc) (before now : Live) (tls : ℕ)
    → now.blocks ≡ before.blocks + strings_of d
    → now.fds ≡ before.fds
    → now.threads ≡ before.threads
    → now.infos ≡ before.infos
    → now.tls ≡ before.tls + tls
    → Ensures (AllBut tls before) (free_desc d now)
unfolding free_desc
free_desc-gives d before now tls blocks fds threads infos lost = ensure _ (ground arith)

-- The block of the connection is left.
abbrev IsEmptied : ℕ → ClientConnection → Live → ClientConnection × Live → Type 0
IsEmptied tls c before out =
    (out.0.client_desc ≡ none) × (out.0.cnt ≡ c.cnt) × AllBut tls (take_block before) out.1

-- The strings on top of the block of the connection.
abbrev pub with_strings : ClientDesc → Live → Live
with_strings d r = record r { blocks = r.blocks + 1 + strings_of d }

free_client-empties :
    (desc : Option ClientDesc) (socket : Option SocketClient) (c : ClientConnection)
    (before now : Live) (tls : ℕ)
    → c.client_desc ≡ desc
    → c.socket ≡ socket
    → HoldsParts desc socket before now
    → now.tls ≡ before.tls + tls
    → Ensures (IsEmptied tls c before) (free_client desc c now)
unfolding free_client
free_client-empties none none c before now tls is is_socket holds lost =
    Ensures-some _ (is, refl, ground arith)
free_client-empties none (some s) c before now tls is is_socket holds lost = absurd holds
free_client-empties (some d) none c before now tls is is_socket holds lost = rw is_socket (
    Ensures-bind
      (free_desc-gives d (take_block before) now tls (omega arith) (ground arith) (ground arith)
        (ground arith) (ground arith))
      λ r back. Ensures-some _ (refl, refl, back))
free_client-empties (some d) (some s) c before now tls is is_socket holds lost = rw is_socket (
    Ensures-bind
      (socket_client_close-gives s (with_strings d before) now tls (ground arith) (ground arith))
      λ r1 gone.
        Ensures-bind
          (free_desc-gives d (take_block before) r1 tls (ground arith) (ground arith) (ground arith)
            (ground arith) (ground arith))
          λ r back. Ensures-some _ (refl, refl, back))

free_connection-empties :
    (c : ClientConnection) (before now : Live) (tls : ℕ)
    → Holds c before now
    → now.tls ≡ before.tls + tls
    → Ensures (IsEmptied tls c before) (free_connection c now)
unfolding free_connection
free_connection-empties c before now tls holds lost =
    free_client-empties c.client_desc c.socket c before now tls refl refl holds lost

-- The destructor finds nothing more to free.
free_connection_again :
    (c : ClientConnection) (r : Live) → c.client_desc ≡ none → free_connection c r ≡ some (c, r)
unfolding free_connection free_client
free_connection_again c r empty = rw empty refl

-- `websocketClient_close` of a connection with one reference gives back whatever it has taken, but the
-- OpenSSL objects.
pub websocket_client_close-gives :
    (c : ClientConnection) (before now : Live) (tls : ℕ)
    → c.cnt ≡ 1
    → Holds c before now
    → now.tls ≡ before.tls + tls
    → Ensures (AllBut tls before) (websocket_client_close (some c) now)
unfolding websocket_client_close unref_connection
websocket_client_close-gives c before now tls one holds lost =
    Ensures-bind (free_connection-empties c before now tls holds lost) λ out h.
      Ensures-if (out.0.cnt == 1)
        (λ last. rw (free_connection_again (out.0) (out.1) (h.0)) (ensure _ (ground arith)))
        (λ more. absurd (ground arith))
