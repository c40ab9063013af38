-- ===== src/Message.antt =====
-- The message handlers of lib/ezwebsocket.c: `checkCloseCode`, `handleFirstMessage`,
-- `handleContMessage`, `handlePingMessage`, `handlePongMessage`, `handleDisconnectMessage` and
-- `parseMessage`. `bytes` is the receive buffer, and `none` an undefined access.
pub mod CloseCode
pub mod Safety
pub mod Cont
pub mod Control
pub mod Overflow
pub mod Delivery
pub mod Assembly
pub mod Replies
pub mod Masking
pub mod Refusals
mod Examples
use ezwebsocket.Prelude.{ℕ, ◌+◌, ◌-◌, ◌*◌, ◌%◌, ◌^◌, bit_or, Bool, true, false, not, ◌&&◌, ◌||◌}
use ezwebsocket.Prelude.{List, [], ◌∷◌, ◌++◌, Option, none, some, if◌then◌else◌, ◌>>=◌}
use ezwebsocket.Prelude.{leb, ltb, ◌==◌, same, length, drop, get_elem?}
use ezwebsocket.Frame.{
  Opcode, continuation, text, binary, disconnect, ping, pong, WsHeader, read_payload, copy_bytes,
  max_default_payload_length,
}
use ezwebsocket.Utf8.{Utf8State, ok, fail, busy, utf8_validate}
use ezwebsocket.Connection.{
  WsType, client, server, DataType, text_data, binary_data, disconnect_request, by_malloc,
  by_refcnt, Block, Connection, Env, is_server, is_client, contents_of, free, malloc,
  refcnt_allocate, send_data_low_level, close_socket, websocket_close_connection,
}

-- The members of `enum ws_close_code` that the code sends.
abbrev pub close_normal : ℕ
close_normal = 1000

abbrev pub close_protocol_error : ℕ
close_protocol_error = 1002

abbrev pub close_invalid_data : ℕ
close_invalid_data = 1007

-- `checkCloseCode`; the reserved codes are 1004, 1005, 1006 and 1015.
pub check_close_code : ℕ → Bool
check_close_code code =
    if ltb code 1000
    then false
    else if ltb 4999 code
    then false
    else if leb 1012 code && leb code 1014
    then false
    else if leb 1016 code && ltb code 3000
    then false
    else if code == 1004 || code == 1005 || code == 1006 || code == 1015
    then false
    else true

-- `enum ws_msg_state`.
pub data MsgState : Type 0 where
  error incomplete no_user_data user_data : MsgState

abbrev pub is_ok : Utf8State → Bool
is_ok ok = true
is_ok fail = false
is_ok busy = false

abbrev pub is_fail : Utf8State → Bool
is_fail ok = false
is_fail fail = true
is_fail busy = false

-- `header->fin ? UTF-8 must be complete : it must not be wrong`.
abbrev pub bad_text : Bool → Utf8State → Bool
bad_text fin state = (fin && not (is_ok state)) || (not fin && is_fail state)

abbrev pub data_type_of : Opcode → DataType
data_type_of opcode = elim opcode [ text ↦ text_data | _ ↦ binary_data ]

-- The fields that `handleFirstMessage` sets once the payload is stored.
pub begin_message : Connection → WsHeader → Connection
begin_message c header = record c {
  last_message = record (c.last_message) {
    first_received = true;
    complete = header.fin;
    data_type = data_type_of header.opcode;
    len = header.payload_length;
  };
}

-- `lastMessage.len += payloadLength`, in a `size_t`.
abbrev pub add_length : ℕ → Connection → Connection
add_length added c = record c {
  last_message = record (c.last_message) { len = (c.last_message.len + added) % 2 ^ 64 };
}

-- The second `switch` of `handleDisconnectMessage`. A client's `socketDesc` is the one that
-- nothing assigns.
pub stop_socket : WsType → Connection → Option Connection
stop_socket server c = close_socket c
stop_socket client c = elim c.client_socket [
  | none ↦ none
  | some _ ↦ some (record c { client_socket = some disconnect_request })
]

module _ (env : Env) where
  -- `websocket_closeConnection(...); return state;`
  pub close_with : Connection → ℕ → MsgState → Option (MsgState × Connection)
  close_with c code state = do c' ← websocket_close_connection env c code; some (state, c')

  -- The last step of both message handlers: a text is validated, from `handle` on.
  pub finish_text :
      DataType
      → Connection
      → Bool
      → List ℕ
      → ℕ
      → (Connection → Connection)
      → Option (MsgState × Connection)
  finish_text binary_data c fin added handle accept =
      some ((if fin then user_data else no_user_data), accept c)
  finish_text text_data c fin added handle accept =
      let (state, handle') = utf8_validate added handle in
      let c' = record c { last_message = record (c.last_message) { utf8_handle = handle' } } in
      if bad_text fin state
      then close_with c' close_invalid_data error
      else some ((if fin then user_data else no_user_data), accept c')

  -- The allocation of `handleFirstMessage` and the copy of the payload; false is a failed `malloc`.
  pub store_first : Connection → List ℕ → WsHeader → Option (Bool × Connection)
  store_first c bytes header =
      if header.payload_length == 0
      then some (true, c)
      else (let (got, c') =
            if header.fin
            then refcnt_allocate env c header.payload_length
            else malloc env c header.payload_length in
          if not got then some (false, c') else (do
            added ← read_payload bytes header
            some (
              true,
              record c' {
                last_message = record (c'.last_message) {
                  payload = some (record {
                    allocator = if header.fin then by_refcnt else by_malloc;
                    contents = added;
                  });
                };
              },
            )))

  -- `handleFirstMessage` behind its test of the mask, by what `lastMessage.data` is.
  pub start_message : Option Block → Connection → List ℕ → WsHeader → Option (MsgState × Connection)
  start_message (some block) c bytes header = close_with c close_protocol_error error
  start_message none c bytes header = do
    (stored, c1) ← store_first c bytes header
    if not stored
        then some (error, c1)
        else (let c2 = begin_message c1 header in
            finish_text c2.last_message.data_type c2 header.fin
              (contents_of c2.last_message.payload) 0 (λ c. c))

  -- `handleFirstMessage`.
  pub handle_first_message : Connection → List ℕ → WsHeader → Option (MsgState × Connection)
  handle_first_message c bytes header =
      if not header.masked && is_server c
      then close_with c close_protocol_error error
      else start_message c.last_message.payload c bytes header

  -- The growth of the buffer in `handleContMessage`; false is a failed allocation, after which the
  -- old buffer is freed.
  pub store_cont : Connection → List ℕ → WsHeader → Option (Bool × Connection)
  store_cont c bytes header =
      let m = c.last_message in
      let total = (m.len + header.payload_length) % 2 ^ 64 in
      if total == 0
      then some (true, c)
      else (let (got, c') =
            if header.fin then refcnt_allocate env c total else malloc env c total in
          do
            freed ← free m.payload
            if not got
                then some (false, record c' { last_message = record m { payload = none } })
                else (do
                  old ← copy_bytes (contents_of m.payload) 0 m.len
                  added ← read_payload bytes header
                  some (
                    true,
                    record c' {
                      last_message = record m {
                        payload = some (record {
                          allocator = if header.fin then by_refcnt else by_malloc;
                          contents = old ++ added;
                        });
                      };
                    },
                  )))

  -- `handleContMessage` once the payload is stored: the new part of the text is validated.
  pub finish_cont : Connection → WsHeader → Option (MsgState × Connection)
  finish_cont c header =
      let c' = record c { last_message = record (c.last_message) { complete = header.fin } } in
      let m = c'.last_message in
      finish_text m.data_type c' header.fin (drop m.len (contents_of m.payload)) m.utf8_handle
        (add_length header.payload_length)

  -- `handleContMessage`.
  pub handle_cont_message : Connection → List ℕ → WsHeader → Option (MsgState × Connection)
  handle_cont_message c bytes header =
      if not c.last_message.first_received
      then close_with c close_protocol_error error
      else if same (is_client c) header.masked
      then close_with c close_protocol_error error
      else (do
        (stored, c1) ← store_cont c bytes header
        if not stored then some (error, c1) else finish_cont c1 header)

  -- The pong of `handlePingMessage`, with the payload taken out of the receive buffer.
  pub send_pong : Connection → List ℕ → WsHeader → Option (MsgState × Connection)
  send_pong c bytes header = do
    msg ← read_payload bytes header
    (sent, c') ← send_data_low_level env c pong true (is_client c) msg
    some ((if sent then no_user_data else error), c')

  -- `handlePingMessage`.
  pub handle_ping_message : Connection → List ℕ → WsHeader → Option (MsgState × Connection)
  handle_ping_message c bytes header =
      if not header.fin
      then close_with c close_protocol_error error
      else if ltb max_default_payload_length header.payload_length
      then close_with c close_protocol_error no_user_data
      else if header.masked && not (header.payload_length == 0)
      then (let (got, c') = malloc env c header.payload_length in
          if got then send_pong c' bytes header else some (error, c'))
      else send_pong c bytes header

  -- `handlePongMessage`.
  pub handle_pong_message : Connection → WsHeader → Option (MsgState × Connection)
  handle_pong_message c header =
      if header.fin && leb header.payload_length max_default_payload_length
      then some (no_user_data, c)
      else close_with c close_protocol_error error

  -- The answer of `handleDisconnectMessage` to a close frame masked the right way.
  pub answer_close : Connection → List ℕ → Option (MsgState × Connection)
  answer_close c payload = do
    b0 ← get_elem? payload 0
    b1 ← get_elem? payload 1
    if not (check_close_code (bit_or (b0 * 2 ^ 8) b1))
        then close_with c close_protocol_error error
        else if length payload == 2 || is_ok (utf8_validate (drop 2 payload) 0).0
        then close_with c close_normal no_user_data
        else close_with c close_invalid_data error

  -- Its last branch, for a close frame masked the wrong way: the frame is sent back as it came.
  pub echo_close : Connection → List ℕ → WsHeader → Option (MsgState × Connection)
  echo_close c bytes header = do
    raw ← copy_bytes bytes header.payload_start_offset header.payload_length
    if header.payload_length == 2 || not (is_ok (utf8_validate (drop 2 raw) 0).0)
        then (do
          (sent, c') ← send_data_low_level env c disconnect true (is_client c) raw
          c'' ← stop_socket c'.ws_type c'
          some ((if sent then no_user_data else error), c''))
        else close_with c close_invalid_data error

  -- `handleDisconnectMessage`.
  pub handle_disconnect_message : Connection → List ℕ → WsHeader → Option (MsgState × Connection)
  handle_disconnect_message c bytes header =
      if not (
        header.fin
        && not (header.payload_length == 1)
        && leb header.payload_length max_default_payload_length)
      then close_with c close_protocol_error error
      else if header.payload_length == 0
      then close_with c close_normal no_user_data
      else if same header.masked (is_server c)
      then (do payload ← read_payload bytes header; answer_close c payload)
      else echo_close c bytes header

  -- The `switch` of `parseMessage`.
  pub handle_message : Opcode → Connection → List ℕ → WsHeader → Option (MsgState × Connection)
  handle_message text c bytes header = handle_first_message c bytes header
  handle_message binary c bytes header = handle_first_message c bytes header
  handle_message continuation c bytes header = handle_cont_message c bytes header
  handle_message ping c bytes header = handle_ping_message c bytes header
  handle_message pong c bytes header = handle_pong_message c header
  handle_message disconnect c bytes header = handle_disconnect_message c bytes header

  -- `parseMessage`: `len` bytes have been received.
  pub parse_message : Connection → List ℕ → ℕ → WsHeader → Option (MsgState × Connection)
  parse_message c bytes len header =
      if ltb len ((header.payload_start_offset + header.payload_length) % 2 ^ 64)
      then some (incomplete, c)
      else handle_message header.opcode c bytes header
