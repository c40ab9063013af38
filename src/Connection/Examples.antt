-- ===== src/Connection/Examples.antt =====
-- An environment in which everything works, and idle connections.
use ezwebsocket.Prelude.{true, false, [], none, some, arith}
use ezwebsocket.Connection.{WsType, WsState, text_data, established, Connection, Env}
use ezwebsocket.Connection.Invariant.{IsResting}

abbrev pub working : Env
working = record {
  send_ok = λ before frame. true;
  alloc_ok = λ n size. true;
  rand = λ n. n;
  ref_cnt_size = 64;
  on_message = some (λ m c. some c);
}

abbrev pub idle : WsType → WsState → Connection
idle type state = record {
  ws_type = type;
  state = state;
  last_message = record {
    data_type = text_data;
    first_received = false;
    complete = false;
    utf8_handle = 0;
    len = 0;
    payload = none;
  };
  user_data = 0;
  tv_sec = 0;
  tv_nsec = 0;
  socket = some established;
  client_socket = none;
  sent = [];
  delivered = [];
  allocations = 0;
  draws = 0;
}

pub idle-IsResting : (type : WsType) (state : WsState) → IsResting (idle type state)
idle-IsResting type state = ground arith
