-- ===== src/Session/Closing.antt =====
-- `websocket_onClose`, after which the connection's descriptor may be given back.
use ezwebsocket.Prelude.{◌≡◌, ◌≢◌, arith, none, Ensures, ensure}
use ezwebsocket.Connection.{connected, Connection, Env}
use ezwebsocket.Connection.Invariant.{IsSound}
use ezwebsocket.Connection.Send.{release-owned}
use ezwebsocket.Session.{Setup, websocket_on_close}

-- What is left of a connection when its socket is gone.
pub record IsGone (c d : Connection) : Type 0 where
  pub no_payload : d.last_message.payload ≡ none
  pub not_connected : d.state ≢ connected
  pub same_delivered : d.delivered ≡ c.delivered
  pub same_sent : d.sent ≡ c.sent

-- `websocket_onClose` on a sound connection, whether its handshake was done or a message was being
-- received or not, and where no callback is set: it frees the message's buffer with the function that
-- fits it, and leaves no buffer behind and the connection no longer open; nothing is sent or delivered.
pub websocket_on_close-IsGone :
    (setup : Setup) (env : Env) (c : Connection)
    → setup.on_close ≡ none
    → IsSound c
    → Ensures (IsGone c) (websocket_on_close setup env c)
unfolding websocket_on_close
websocket_on_close-IsGone setup env c silent sound =
    rw (release-owned c.last_message sound.owned) (ensure _ (ground arith))
