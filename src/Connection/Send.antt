-- ===== src/Connection/Send.antt =====
-- What sending and closing, in lib/ezwebsocket.c, do to the connection.
use ezwebsocket.Prelude.{
  if◌then◌else◌, ℕ, ◌≡◌, refl, sym, subst, Bool, true, false, List, Option, some, arith, length,
  ◌+◌, ◌/◌, ◌%◌, ◌^◌, bit_and, [], ◌∷◌,
}
use ezwebsocket.Prelude.{
  Ensures, ensure, Ensures-bind, Ensures-if, Ensures-some, Ensures-Holds, Ensures-weaken,
}
use ezwebsocket.Frame.{Opcode, disconnect, create_websocket_header}
use ezwebsocket.Connection.{
  established, frame_of, connected, Connection, Env, LastMessage, is_client, release, malloc,
  refcnt_allocate, draw_mask, send, socket_server_send, socket_client_send, socket_send, send_frame,
  send_open, send_data_low_level, close_socket, websocket_close_connection,
}
use ezwebsocket.Connection.Invariant.{IsLinked, IsOwned, OwnsBlock, SameButIo, IsClosing}

-- Every allocation succeeds.
abbrev pub HasMemory : Env → Type 0
HasMemory env = (n size : ℕ) → env.alloc_ok n size ≡ true

abbrev pub Sends : Connection → Option (Bool × Connection) → Type 0
Sends c = Ensures (λ out. SameButIo c out.1)

pub SameButIo-refl : (c : Connection) → SameButIo c c
SameButIo-refl c = ground arith

pub SameButIo-IsLinked : {c d : Connection} → SameButIo c d → IsLinked c.socket → IsLinked d.socket
SameButIo-IsLinked same linked = subst IsLinked (sym same.same_socket) linked

-- What telling the socket to go down keeps.
pub record IsStopped (c d : Connection) : Type 0 where
  pub same_type : d.ws_type ≡ c.ws_type
  pub same_message : d.last_message ≡ c.last_message
  pub same_client : d.client_socket ≡ c.client_socket
  pub same_delivered : d.delivered ≡ c.delivered
  pub linked : IsLinked d.socket

pub close_socket-stops :
    (c : Connection) → IsLinked c.socket → Ensures (IsStopped c) (close_socket c)
unfolding close_socket
close_socket-stops c linked = ensure _ (ground arith)

module _ (env : Env) where
  pub malloc-SameButIo :
      {c d : Connection} (size : ℕ) → SameButIo c d → SameButIo c (malloc env d size).1
  unfolding malloc
  malloc-SameButIo size same = ground arith

  pub refcnt_allocate-SameButIo :
      {c d : Connection} (size : ℕ) → SameButIo c d → SameButIo c (refcnt_allocate env d size).1
  unfolding refcnt_allocate
  refcnt_allocate-SameButIo size same = malloc-SameButIo (env.ref_cnt_size + size) same

  pub allocate-got :
      (c : Connection) (fin : Bool) (size : ℕ)
      → HasMemory env
      → (if fin then refcnt_allocate env c size else malloc env c size).0 ≡ true
  unfolding malloc refcnt_allocate
  allocate-got c true size memory = memory c.allocations ((env.ref_cnt_size + size) % 2 ^ 64)
  allocate-got c false size memory = memory c.allocations (size % 2 ^ 64)

  draw_mask-SameButIo : (c : Connection) → SameButIo c (draw_mask env c).1
  unfolding draw_mask
  draw_mask-SameButIo c = ground arith

  socket_send-Sends :
      {c : Connection} (d : Connection) (frame : List ℕ)
      → IsLinked c.socket
      → SameButIo c d
      → Sends c (socket_send env d frame)
  unfolding socket_send socket_server_send socket_client_send send
  socket_send-Sends d frame linked same = ensure _ (ground arith)

  send_frame-Sends :
      {c : Connection} (d : Connection) (opcode : Opcode) (fin masked : Bool) (mask : ℕ)
      (msg : List ℕ)
      → IsLinked c.socket
      → SameButIo c d
      → Sends c (send_frame env d opcode fin masked mask msg)
  unfolding send_frame
  send_frame-Sends d opcode fin masked mask msg linked same =
      let size =
        length (create_websocket_header opcode fin masked mask (length msg)) + length msg in
      let same' = malloc-SameButIo size same in
      Ensures-if (malloc env d size).0 (λ got. socket_send-Sends _ _ linked same')
        (λ full. Ensures-some _ same')

  send_open-Sends :
      (c : Connection) (opcode : Opcode) (fin masked : Bool) (msg : List ℕ)
      → IsLinked c.socket
      → Sends c (send_open env c opcode fin masked msg)
  unfolding send_open
  send_open-Sends c opcode fin masked msg linked =
      Ensures-if masked
        (λ _.
          send_frame-Sends (draw_mask env c).1 opcode fin true _ msg linked (draw_mask-SameButIo c))
        (λ _. send_frame-Sends c opcode fin false 0 msg linked (SameButIo-refl c))

  -- `sendDataLowLevel` on a connection with a socket does not fault.
  pub send_data_low_level-Sends :
      (c : Connection) (opcode : Opcode) (fin masked : Bool) (msg : List ℕ)
      → IsLinked c.socket
      → Sends c (send_data_low_level env c opcode fin masked msg)
  unfolding send_data_low_level
  send_data_low_level-Sends c opcode fin masked msg linked = ensure _ (
      ground
        (arith, Ensures-Holds (send_open-Sends c opcode fin masked msg linked), SameButIo-refl c))

  -- `websocket_closeConnection` does not fault where the message goes back to its allocator.
  pub websocket_close_connection-IsClosing :
      (c : Connection) (code : ℕ)
      → IsLinked c.socket
      → release c.last_message ≡ some tt
      → Ensures (IsClosing c) (websocket_close_connection env c code)
  unfolding websocket_close_connection close_socket
  websocket_close_connection-IsClosing c code linked released =
      Ensures-bind
        (send_data_low_level-Sends c disconnect true (is_client c)
          (code / 2 ^ 8 % 256 ∷ bit_and code 0xFF ∷ []) linked)
        λ out same.
          rw (subst (λ m. release m ≡ some tt) (sym same.same_message) released)
            (ensure _ (ground arith))

-- The release before `data = NULL` goes to the right allocator, whatever length is recorded.
pub release-owns :
    (m : LastMessage) (n : ℕ) → OwnsBlock m.complete n m.payload → release m ≡ some tt
release-owns m n owns = ground arith

pub release-owned : (m : LastMessage) → IsOwned m → release m ≡ some tt
release-owned m owned = release-owns m m.len owned.0

-- One frame was written, with some mask.
pub record Writes (c : Connection) (opcode : Opcode) (fin masked : Bool) (msg : List ℕ)
    (out : Bool × Connection) : Type 0 where
  pub mask : ℕ
  pub all_sent : out.0 ≡ true
  pub written : out.1.sent ≡ frame_of opcode fin masked mask msg ∷ c.sent

-- `send` takes every buffer whole.
abbrev pub HasNetwork : Env → Type 0
HasNetwork env = (before : List (List ℕ)) (frame : List ℕ) → env.send_ok before frame ≡ true

module _ (env : Env) (memory : HasMemory env) (network : HasNetwork env) where
  socket_send-writes :
      (c : Connection) (frame : List ℕ)
      → c.socket ≡ some established
      → Ensures (λ out. (out.0 ≡ true) × (out.1.sent ≡ frame ∷ c.sent)) (socket_send env c frame)
  unfolding socket_send socket_server_send socket_client_send send
  socket_send-writes c frame open_socket = ensure _ (ground (arith, network c.sent frame))

  send_frame-Writes :
      (c0 c : Connection) (opcode : Opcode) (fin masked : Bool) (mask : ℕ) (msg : List ℕ)
      → c.socket ≡ some established
      → c.sent ≡ c0.sent
      → Ensures (Writes c0 opcode fin masked msg) (send_frame env c opcode fin masked mask msg)
  unfolding send_frame malloc
  send_frame-Writes c0 c opcode fin masked mask msg open_socket same =
      Ensures-if
        (malloc env c
          (length (create_websocket_header opcode fin masked mask (length msg)) + length msg)).0
        (λ got.
          Ensures-weaken (socket_send-writes _ (frame_of opcode fin masked mask msg) open_socket)
            (λ out h. record { mask = mask; all_sent = h.0; written = rw (← same) h.1 }))
        (λ full. absurd (
          ground (
            arith,
            allocate-got env c false
                (length (create_websocket_header opcode fin masked mask (length msg)) + length msg)
                memory,
          )))

  send_open-Writes :
      (c : Connection) (opcode : Opcode) (fin masked : Bool) (msg : List ℕ)
      → c.socket ≡ some established
      → Ensures (Writes c opcode fin masked msg) (send_open env c opcode fin masked msg)
  unfolding send_open draw_mask
  send_open-Writes c opcode fin true msg open_socket =
      send_frame-Writes c (draw_mask env c).1 opcode fin true (draw_mask env c).0 msg open_socket
        refl
  send_open-Writes c opcode fin false msg open_socket =
      send_frame-Writes c c opcode fin false 0 msg open_socket refl

  -- `sendDataLowLevel` on an established connection writes one frame, where memory can be had and
  -- `send` takes it whole.
  pub send_data_low_level-Writes :
      (c : Connection) (opcode : Opcode) (fin masked : Bool) (msg : List ℕ)
      → c.socket ≡ some established
      → c.state ≡ connected
      → Ensures (Writes c opcode fin masked msg) (send_data_low_level env c opcode fin masked msg)
  unfolding send_data_low_level
  send_data_low_level-Writes c opcode fin masked msg open_socket ready =
      ensure _
        (ground (arith, Ensures-Holds (send_open-Writes c opcode fin masked msg open_socket)))

module _ (env : Env) (network : HasNetwork env) where
  pub socket_server_send-writes :
      (c : Connection) (frame : List ℕ)
      → c.socket ≡ some established
      → Ensures
          (λ out. (out.0 ≡ true) × (out.1.sent ≡ frame ∷ c.sent))
          (socket_server_send env c frame)
  unfolding socket_server_send send
  socket_server_send-writes c frame open_socket = ensure _ (ground (arith, network c.sent frame))

  pub socket_client_send-writes :
      (c : Connection) (frame : List ℕ)
      → c.socket ≡ some established
      → Ensures
          (λ out.
            (out.0 ≡ true)
            × (out.1.sent ≡ frame ∷ c.sent)
            × (out.1.state ≡ c.state)
            × (out.1.ws_type ≡ c.ws_type))
          (socket_client_send env c frame)
  unfolding socket_client_send send
  socket_client_send-writes c frame open_socket = ensure _ (ground (arith, network c.sent frame))
