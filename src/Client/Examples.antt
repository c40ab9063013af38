-- ===== src/Client/Examples.antt =====
-- A client whose calls all succeed.
use ezwebsocket.Prelude.{◌*◌, true, arith, Ensures}
use ezwebsocket.Connection.{connected}
use ezwebsocket.Resources.{Live}
use ezwebsocket.Client.{Answers, wait_open, websocket_client_open}
use ezwebsocket.Client.Waiting.{SaysOpen, wait_open-ends}
use ezwebsocket.Client.Opening.{OpensClient, websocket_client_open-OpensClient}

abbrev fine : Answers
fine = record {
  connection_ok = true;
  client_ok = true;
  address_ok = true;
  port_ok = true;
  endpoint_ok = true;
  port = 443;
  socket_desc_ok = true;
  socket_ok = true;
  connect_ok = true;
  secure = true;
  thread_ok = true;
  key_ok = true;
  state = λ round. connected;
  clock = λ round. round * 31;
}

abbrev nothing : Live
nothing = record { blocks = 0; fds = 0; threads = 0; tls = 0; infos = 0 }

websocket_client_open-OpensClient_example :
    Ensures (OpensClient fine nothing) (websocket_client_open 2 fine nothing)
websocket_client_open-OpensClient_example =
    websocket_client_open-OpensClient 2 fine nothing (omega arith)

wait_open-ends_example :
    Ensures (SaysOpen fine.state fine.clock 0) (wait_open fine.state fine.clock 0 2 0)
wait_open-ends_example = wait_open-ends fine.state fine.clock 0 2 0 (omega arith) (omega arith)
