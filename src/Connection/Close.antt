-- ===== src/Connection/Close.antt =====
-- What `websocket_closeConnection` writes.
use ezwebsocket.Prelude.{ℕ, ◌/◌, ◌%◌, ◌^◌, ◌≡◌, refl, sym, subst, bit_and, arith}
use ezwebsocket.Prelude.{Bool, true, false, List, [], ◌∷◌, some, none, if◌then◌else◌}
use ezwebsocket.Prelude.{Ensures, Ensures-some, Ensures-bind, Ensures-both}
use ezwebsocket.Frame.{disconnect}
use ezwebsocket.Connection.{
  disconnected, disconnect_request, established, connected, Connection, Env, is_client, is_server,
  frame_of, release, malloc, refcnt_allocate, close_socket, websocket_close_connection,
}
use ezwebsocket.Connection.Send.{
  HasMemory, HasNetwork, send_data_low_level-Writes, send_data_low_level-Sends,
}

-- The two bytes of a closing code.
abbrev pub code_bytes : ℕ → List ℕ
code_bytes code = code / 2 ^ 8 % 256 ∷ bit_and code 0xFF ∷ []

-- The connection said why it closes, dropped its message and told its socket to go down; nothing was
-- delivered.
pub record ClosesWith (code : ℕ) (c d : Connection) : Type 0 where
  pub mask : ℕ
  pub written : d.sent ≡ frame_of disconnect true (is_client c) mask (code_bytes code) ∷ c.sent
  pub same_delivered : d.delivered ≡ c.delivered
  pub no_payload : d.last_message.payload ≡ none
  pub down : d.socket ≡ some (if is_server c then disconnected else disconnect_request)

pub malloc-sent : (env : Env) (c : Connection) (size : ℕ) → (malloc env c size).1.sent ≡ c.sent
unfolding malloc
malloc-sent env c size = refl

pub allocate-sent :
    (env : Env) (c : Connection) (fin : Bool) (size : ℕ)
    → (if fin then refcnt_allocate env c size else malloc env c size).1.sent ≡ c.sent
unfolding malloc refcnt_allocate
allocate-sent env c true size = refl
allocate-sent env c false size = refl

module _ (env : Env) (memory : HasMemory env) (network : HasNetwork env) where
  pub malloc-got : (c : Connection) (size : ℕ) → (malloc env c size).0 ≡ true
  unfolding malloc
  malloc-got c size = memory c.allocations (size % 2 ^ 64)

  pub websocket_close_connection-ClosesWith :
      (c : Connection) (code : ℕ)
      → c.socket ≡ some established
      → c.state ≡ connected
      → release c.last_message ≡ some tt
      → Ensures (ClosesWith code c) (websocket_close_connection env c code)
  unfolding websocket_close_connection close_socket
  websocket_close_connection-ClosesWith c code up ready released =
      Ensures-bind
        (Ensures-both
          (send_data_low_level-Writes env memory network c disconnect true (is_client c)
            (code_bytes code) up ready)
          (send_data_low_level-Sends env c disconnect true (is_client c) (code_bytes code)
            (ground arith)))
        λ out h.
          let same = h.1 in
          let writes = h.0 in
          rw (subst (λ m. release m ≡ some tt) (sym same.same_message) released) (
            rw (same.same_socket, up, same.same_type)
              (Ensures-some _ (record {
                mask = writes.mask;
                written = writes.written;
                same_delivered = same.same_delivered;
                no_payload = refl;
                down = refl;
              })))
