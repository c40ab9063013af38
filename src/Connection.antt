-- ===== src/Connection.antt =====
-- The connection descriptor of lib/ezwebsocket.c, the sending of frames and the closing of a
-- connection. Memory is explicit: a block records which allocator it came from, and giving it to
-- the wrong one, as any access through a null pointer, is `none`.
pub mod Invariant
pub mod Send
pub mod Close
pub mod Examples
use ezwebsocket.Prelude.{ℕ, ◌+◌, ◌*◌, ◌/◌, ◌%◌, ◌^◌, bit_and, bit_or, Bool, true, false, not}
use ezwebsocket.Prelude.{List, [], ◌∷◌, ◌++◌, Option, none, some, if◌then◌else◌, ◌>>=◌, length}
use ezwebsocket.Frame.{Opcode, text, binary, disconnect, create_websocket_header, copy_masked}

-- `enum ws_type`.
pub data WsType : Type 0 where
  client server : WsType

-- `enum ws_state`.
pub data WsState : Type 0 where
  handshake connected closed : WsState

-- `enum ws_data_type`.
pub data DataType : Type 0 where
  text_data binary_data : DataType

-- The `switch` on the data type, in `websocket_sendData` and `websocket_sendDataFragmentedStart`.
abbrev pub opcode_for : DataType → Opcode
opcode_for text_data = text
opcode_for binary_data = binary

-- `enum socket_client_state`; `enum socket_connection_state` has the first and the last.
pub data SocketState : Type 0 where
  established disconnect_request disconnected : SocketState

-- Where a block of memory came from: `malloc` and `realloc`, or `refcnt_allocate`.
pub data Allocator : Type 0 where
  by_malloc by_refcnt : Allocator

pub record Block : Type 0 where
  pub allocator : Allocator
  pub contents : List ℕ

-- `struct last_message`; `payload` is its `data`, and `none` is NULL.
pub record LastMessage : Type 0 where
  pub data_type : DataType
  pub first_received : Bool
  pub complete : Bool
  pub utf8_handle : ℕ
  pub len : ℕ
  pub payload : Option Block

-- `struct websocket_connection_desc`. `socket` is the state behind `socketClientDesc`, and
-- `client_socket` that behind `wsDesc.wsClientDesc->socketDesc`; `none` is NULL. The fields from
-- `sent` on record what the connection did: the buffers given to `send`, the messages given to
-- `ws_onMessage`, both newest first, and how often memory and `rand` were asked for.
pub record Connection : Type 0 where
  pub ws_type : WsType
  pub state : WsState
  pub last_message : LastMessage
  pub user_data : ℕ
  pub tv_sec : ℕ
  pub tv_nsec : ℕ
  pub socket : Option SocketState
  pub client_socket : Option SocketState
  pub sent : List (List ℕ)
  pub delivered : List (DataType × List ℕ)
  pub allocations : ℕ
  pub draws : ℕ

-- What the code calls and does not implement. `send_ok` says whether `send` takes a whole buffer,
-- after the buffers sent before; `alloc_ok` whether the n-th allocation of so many bytes succeeds;
-- `on_message` is the user's callback, `none` where it is NULL.
pub record Env : Type 0 where
  pub send_ok : List (List ℕ) → List ℕ → Bool
  pub alloc_ok : ℕ → ℕ → Bool
  pub rand : ℕ → ℕ
  pub ref_cnt_size : ℕ
  pub on_message : Option (DataType × List ℕ → Connection → Option Connection)

abbrev pub is_server : Connection → Bool
is_server c = elim c.ws_type [ server ↦ true | client ↦ false ]

abbrev pub is_client : Connection → Bool
is_client c = not (is_server c)

-- The bytes behind a pointer; none behind NULL.
abbrev pub contents_of : Option Block → List ℕ
contents_of none = []
contents_of (some block) = block.contents

-- `free`, which takes NULL and blocks of `malloc`.
abbrev pub free : Option Block → Option (Unit {0})
free none = some tt
free (some block) = elim block.allocator [ by_malloc ↦ some tt | by_refcnt ↦ none ]

-- `refcnt_unref`, which takes blocks of `refcnt_allocate`.
abbrev pub unref : Option Block → Option (Unit {0})
unref none = none
unref (some block) = elim block.allocator [ by_malloc ↦ none | by_refcnt ↦ some tt ]

-- `if (data && complete) refcnt_unref(data); else free(data);`
abbrev pub release : LastMessage → Option (Unit {0})
release m = elim m.payload [
  | none ↦ free none
  | some block ↦ if m.complete then unref (some block) else free (some block)
]

-- `socketServer_closeConnection` and `socketClient_closeConnection` on `socketClientDesc`.
pub close_socket : Connection → Option Connection
close_socket c = elim c.socket [
  | none ↦ none
  | some _ ↦
      some (record c { socket = some (if is_server c then disconnected else disconnect_request) })
]

-- The bytes of one frame, as `sendDataLowLevel` puts them together.
abbrev pub frame_of : Opcode → Bool → Bool → ℕ → List ℕ → List ℕ
frame_of opcode fin masked mask msg =
    create_websocket_header opcode fin masked mask (length msg)
    ++ (if masked then copy_masked mask msg else msg)

module _ (env : Env) where
  -- `malloc(size)` for a `size_t`.
  pub malloc : Connection → ℕ → Bool × Connection
  malloc c size =
      (env.alloc_ok c.allocations (size % 2 ^ 64), record c { allocations = c.allocations + 1 })

  -- `refcnt_allocate(size, NULL)`: the counter stands in front of the data.
  pub refcnt_allocate : Connection → ℕ → Bool × Connection
  refcnt_allocate c size = malloc c (env.ref_cnt_size + size)

  -- `mask = (rand() << 16) | (rand() & 0x0000FFFF)`, of which only 32 bits are used.
  pub draw_mask : Connection → ℕ × Connection
  draw_mask c = (
    bit_or (env.rand c.draws * 2 ^ 16 % 2 ^ 32) (bit_and (env.rand (c.draws + 1)) 0x0000FFFF),
    record c { draws = c.draws + 2 },
  )

  -- `send(fd, msg, len, MSG_NOSIGNAL)`, and whether all of it was taken.
  pub send : Connection → List ℕ → Bool × Connection
  send c frame = (env.send_ok c.sent frame, record c { sent = frame ∷ c.sent })

  -- `socketServer_send`; whether its `int` result is the length is `send_ok` of the environment.
  pub socket_server_send : Connection → List ℕ → Option (Bool × Connection)
  socket_server_send c frame = elim c.socket [
    | none ↦ none
    | some disconnected ↦ some (false, c)
    | some established ↦ some (send c frame)
    | some disconnect_request ↦ some (send c frame)
  ]

  -- `socketClient_send`.
  pub socket_client_send : Connection → List ℕ → Option (Bool × Connection)
  socket_client_send c frame = elim c.socket [
    | none ↦ some (false, c)
    | some established ↦ some (send c frame)
    | some disconnect_request ↦ some (false, c)
    | some disconnected ↦ some (false, c)
  ]

  -- The `switch` of `sendDataLowLevel`.
  pub socket_send : Connection → List ℕ → Option (Bool × Connection)
  socket_send c frame = elim c.ws_type [
    | server ↦ socket_server_send c frame
    | client ↦ socket_client_send c frame
  ]

  -- `sendDataLowLevel` once the mask is drawn.
  pub send_frame : Connection → Opcode → Bool → Bool → ℕ → List ℕ → Option (Bool × Connection)
  send_frame c opcode fin masked mask msg =
      let header = create_websocket_header opcode fin masked mask (length msg) in
      let (got, c') = malloc c (length header + length msg) in
      if got then socket_send c' (frame_of opcode fin masked mask msg) else some (false, c')

  -- `sendDataLowLevel` behind its test of the state.
  pub send_open : Connection → Opcode → Bool → Bool → List ℕ → Option (Bool × Connection)
  send_open c opcode fin masked msg =
      if masked
      then (let (mask, c') = draw_mask c in send_frame c' opcode fin true mask msg)
      else send_frame c opcode fin false 0 msg

  -- `sendDataLowLevel`: true is its 0, false its -1.
  pub send_data_low_level : Connection → Opcode → Bool → Bool → List ℕ → Option (Bool × Connection)
  send_data_low_level c opcode fin masked msg = elim c.state [
    | closed ↦ some (false, c)
    | handshake ↦ send_open c opcode fin masked msg
    | connected ↦ send_open c opcode fin masked msg
  ]

  -- `websocket_closeConnection`.
  pub websocket_close_connection : Connection → ℕ → Option Connection
  websocket_close_connection c code = do
    (rc, c1) ←
        send_data_low_level c disconnect true (is_client c)
          (code / 2 ^ 8 % 256 ∷ bit_and code 0xFF ∷ [])
    released ← release c1.last_message
    close_socket (record c1 {
      last_message = record (c1.last_message) { payload = none; len = 0; complete = false };
    })
