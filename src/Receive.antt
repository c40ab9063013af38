-- ===== src/Receive.antt =====
-- The receiving side of lib/ezwebsocket.c on an open connection: `callOnMessage` and the
-- `WS_STATE_CONNECTED` case of `websocket_onMessage`.
pub mod Safety
pub mod Timeout
pub mod Delivery
pub mod Frames
pub mod Refinement
pub mod Replies
pub mod Masking
mod Examples
use ezwebsocket.Prelude.{ℕ, ◌+◌, ◌%◌, ◌^◌, false, List, ◌∷◌, Option, none, some}
use ezwebsocket.Prelude.{if◌then◌else◌, ◌>>=◌, ltb, ◌==◌}
use ezwebsocket.Frame.{WsHeader, HeaderResult, malformed, too_short, parsed, parse_websocket_header}
use ezwebsocket.Connection.{
  DataType, Connection, Env, LastMessage, contents_of, free, release, unref,
  websocket_close_connection,
}
use ezwebsocket.Message.{
  MsgState, error, incomplete, no_user_data, user_data, close_protocol_error, parse_message,
}

-- `struct timespec`, as `clock_gettime` fills it.
pub record Timespec : Type 0 where
  pub sec : ℕ
  pub nsec : ℕ

abbrev pub message_timeout_s : ℕ
message_timeout_s = 30

abbrev pub stop_timer : Connection → Connection
stop_timer c = record c { tv_sec = 0; tv_nsec = 0 }

-- `refcnt_unref` where the pointer is not NULL.
abbrev pub unref_if_set : LastMessage → Option (Unit {0})
unref_if_set m = elim m.payload [ none ↦ some tt | some block ↦ unref (some block) ]

-- The callback of a connection is given the message and may use the connection; NULL does nothing.
pub call_back :
    Option (DataType × List ℕ → Connection → Option Connection) → Connection → Option Connection
call_back none c = some c
call_back (some callback) c =
    let message : DataType × List ℕ =
      (c.last_message.data_type, contents_of c.last_message.payload) in
    callback message (record c { delivered = message ∷ c.delivered })

-- `callOnMessage`.
pub call_on_message : Env → Connection → Option Connection
call_on_message env c = call_back env.on_message c

-- The four cases behind `parseMessage`; the number is what `websocket_onMessage` returns.
pub after_message : Env → Timespec → ℕ → WsHeader → MsgState → Connection → Option (ℕ × Connection)
after_message env now len header no_user_data c =
    some ((header.payload_length + header.payload_start_offset) % 2 ^ 64, stop_timer c)
after_message env now len header user_data c = do
  c1 ← call_on_message env c
  released ← unref_if_set c1.last_message
  some (
    (header.payload_length + header.payload_start_offset) % 2 ^ 64,
    stop_timer (record c1 {
      last_message = record (c1.last_message) {
        payload = none;
        complete = false;
        first_received = false;
        len = 0;
      };
    }),
  )
after_message env now len header incomplete c =
    if c.tv_sec == (if c.tv_nsec == 0 then 1 else 0)
    then some (0, record c { tv_sec = now.sec; tv_nsec = now.nsec })
    else if ltb (now.sec + message_timeout_s) c.tv_sec
    then (do
      released ← free c.last_message.payload
      some (
        len,
        stop_timer (record c {
          last_message = record (c.last_message) { payload = none; len = 0; complete = false };
        }),
      ))
    else some (0, c)
after_message env now len header error c = do
  released ← release c.last_message
  some (
    len,
    stop_timer (record c {
      last_message = record (c.last_message) { payload = none; len = 0; complete = false };
    }),
  )

-- The `switch` on what `parseWebsocketHeader` returned.
pub on_header : Env → Timespec → Connection → List ℕ → ℕ → HeaderResult → Option (ℕ × Connection)
on_header env now c bytes len malformed = do
  c' ← websocket_close_connection env c close_protocol_error
  some (len, c')
on_header env now c bytes len too_short = some (0, c)
on_header env now c bytes len (parsed header) = do
  (state, c') ← parse_message env c bytes len header
  after_message env now len header state c'

-- The `WS_STATE_CONNECTED` case of `websocket_onMessage`: `len` bytes of the buffer were received.
pub on_frame : Env → Timespec → Connection → List ℕ → ℕ → Option (ℕ × Connection)
on_frame env now c bytes len = do
  result ← parse_websocket_header bytes len
  on_header env now c bytes len result
