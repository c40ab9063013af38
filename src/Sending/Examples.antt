-- ===== src/Sending/Examples.antt =====
-- A client's message to a server.
use ezwebsocket.Prelude.{ℕ, ◌≡◌, refl, arith, true, List, [], ◌∷◌, ◌++◌, Ensures, length}
use ezwebsocket.Connection.{client, server, connected, binary_data}
use ezwebsocket.Connection.Examples.{working, idle, idle-IsResting}
use ezwebsocket.Receive.{on_frame}
use ezwebsocket.Receive.Delivery.{Delivers}
use ezwebsocket.Sending.{websocket_send_data}
use ezwebsocket.Sending.EndToEnd.{websocket_send_data-delivered}

websocket_send_data-delivered_example :
    Ensures
      (λ out.
        (out.0 ≡ true)
        × ((frame : List ℕ) × (out.1.sent ≡ frame ∷ [])
            × Ensures (Delivers (idle server connected) binary_data (5 ∷ 6 ∷ []) (length frame)) (
                on_frame working
                  (record { sec = 0; nsec = 0 })
                  (idle server connected)
                  (frame ++ 9 ∷ [])
                  (length (frame ++ 9 ∷ [])))))
      (websocket_send_data working (idle client connected) binary_data (5 ∷ 6 ∷ []))
websocket_send_data-delivered_example =
    websocket_send_data-delivered working working (record { sec = 0; nsec = 0 })
      (idle client connected) (idle server connected) binary_data (5 ∷ 6 ∷ []) (9 ∷ [])
      (λ n size. refl) (λ before frame. refl) (λ n size. refl) (λ m c. refl) refl refl
      (idle-IsResting server connected) refl refl (omega arith) tt (omega arith) (omega arith)
