-- ===== src/Receive/Masking.antt =====
-- A close frame in the receive buffer of a client that is masked, which a server must not do.
use ezwebsocket.Prelude.{ℕ, ◌<◌, ◌^◌, ◌≡◌, refl}
use ezwebsocket.Prelude.{true, List, ◌∷◌, ◌++◌, [], none, length}
use ezwebsocket.Frame.{disconnect}
use ezwebsocket.Frame.RoundTrip.{decoded}
use ezwebsocket.Connection.{client, Connection, Env, frame_of}
use ezwebsocket.Connection.Invariant.{IsLinked}
use ezwebsocket.Message.Replies.{handle_message_disconnect}
use ezwebsocket.Message.Masking.{handle_disconnect_message-faults}
use ezwebsocket.Receive.{Timespec, on_frame}
use ezwebsocket.Receive.Frames.{on_frame_whole}

-- A masked close frame with any code and no reason, in front of the receive buffer of a client's
-- connection with a socket, makes `websocket_onMessage` fault, whatever it is followed by and whether
-- sending works or not: `socketDesc` of the client's descriptor is NULL there, since nothing sets it.
pub masked_close_faults :
    (env : Env) (now : Timespec) (c : Connection) (mask b0 b1 : ℕ) (rest : List ℕ)
    → IsLinked c.socket
    → c.ws_type ≡ client
    → c.client_socket ≡ none
    → length (frame_of disconnect true true mask (b0 ∷ b1 ∷ []) ++ rest) < 2 ^ 64
    → on_frame env now c
        (frame_of disconnect true true mask (b0 ∷ b1 ∷ []) ++ rest)
        (length (frame_of disconnect true true mask (b0 ∷ b1 ∷ []) ++ rest))
      ≡ none
masked_close_faults env now c mask b0 b1 rest linked is missing small =
    let bytes = frame_of disconnect true true mask (b0 ∷ b1 ∷ []) ++ rest in
    let header = decoded disconnect true true mask 2 in
    rw
      (
        on_frame_whole env now c disconnect true true mask (b0 ∷ b1 ∷ []) rest (length bytes) refl
            small,
        handle_message_disconnect env c bytes header,
        handle_disconnect_message-faults env c bytes header linked is missing refl refl refl,
      )
      refl
