-- ===== src/Sending.antt =====
-- The sending functions of lib/ezwebsocket.c that the library's users call.
pub mod EndToEnd
pub mod Fragments
mod Examples
use ezwebsocket.Prelude.{Bool, true, false, ℕ, List, Option, some, if◌then◌else◌}
use ezwebsocket.Frame.{Opcode, continuation}
use ezwebsocket.Connection.{
  handshake, connected, closed, WsState, DataType, text_data, binary_data, Connection, Env,
  opcode_for, is_client, send_data_low_level,
}

abbrev pub is_connected : WsState → Bool
is_connected connected = true
is_connected handshake = false
is_connected closed = false

module _ (env : Env) where
  -- `websocket_sendData`; true is its 0.
  pub websocket_send_data : Connection → DataType → List ℕ → Option (Bool × Connection)
  websocket_send_data c type msg =
      if is_connected c.state
      then send_data_low_level env c (opcode_for type) true (is_client c) msg
      else some (false, c)

  -- `websocket_sendDataFragmentedStart`.
  pub websocket_send_data_fragmented_start :
      Connection → DataType → List ℕ → Option (Bool × Connection)
  websocket_send_data_fragmented_start c type msg =
      if is_connected c.state
      then send_data_low_level env c (opcode_for type) false (is_client c) msg
      else some (false, c)

  -- `websocket_sendDataFragmentedCont`.
  pub websocket_send_data_fragmented_cont : Connection → Bool → List ℕ → Option (Bool × Connection)
  websocket_send_data_fragmented_cont c fin msg =
      if is_connected c.state
      then send_data_low_level env c continuation fin (is_client c) msg
      else some (false, c)
