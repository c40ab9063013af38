-- ===== src/Session/Examples.antt =====
-- A client and a server in their opening handshake.
use ezwebsocket.Prelude.{ℕ, ◌≡◌, refl, arith, true, List, [], ◌∷◌, none, Ensures, length}
use ezwebsocket.Base64.Examples.{zeros, zeros_text}
use ezwebsocket.Handshake.Examples.{key, request-absent, calculate_accept-zeros}
use ezwebsocket.Connection.{client, server, handshake, connected}
use ezwebsocket.Connection.Examples.{working, idle, idle-IsResting}
use ezwebsocket.Receive.{Timespec}
use ezwebsocket.Session.{Setup, websocket_on_message, client_on_open, websocket_on_close}
use ezwebsocket.Session.Opening.{opening_handshake}
use ezwebsocket.Session.Closing.{IsGone, websocket_on_close-IsGone}
use ezwebsocket.Prelude.{◌+◌, ◌<◌, ◌^◌, false, ap}
use ezwebsocket.Connection.{binary_data}
use ezwebsocket.DynBuffer.Bounds.{filled, filled-IsFit, IsFit}
use ezwebsocket.DynBuffer.{unread}
use ezwebsocket.SocketServer.Drain.{Drains, drain-ends}
use ezwebsocket.Session.Stream.Whole.{HasFrames, whole-IsReader}
use ezwebsocket.Message.Assembly.{Part, first, next, stream}
use ezwebsocket.Session.Stream.Fragments.{length-stream}
use ezwebsocket.Message.Assembly.Fragments.{fragments}
use ezwebsocket.Sending.Fragments.{send_parts, wire}
use ezwebsocket.SocketServer.{drain}
use ezwebsocket.Session.Stream.{is_session_up, reader, Assembles}
use ezwebsocket.Session.Stream.Fragments.{fragments-delivered}

abbrev pub plain : Setup
plain = record {
  sha1 = λ text. zeros;
  encode_ok = λ size. true;
  ws_key = key;
  endpoint = 47 ∷ [];
  address = 97 ∷ [];
  port = 49 ∷ [];
  on_open = none;
  on_open_legacy = none;
  on_close = none;
}

abbrev pub start : Timespec
start = record { sec = 0; nsec = 0 }

opening_handshake_example :
    Ensures
      (λ asked.
        (request : List ℕ) × (asked.sent ≡ request ∷ [])
        × Ensures
            (λ out.
              (out.0 ≡ length request)
              × (out.1.state ≡ connected)
              × ((reply : List ℕ) × (out.1.sent ≡ reply ∷ [])
                  × Ensures
                      (λ back. (back.0 ≡ length reply) × (back.1.state ≡ connected))
                      (websocket_on_message plain working start asked reply (length reply))))
            (websocket_on_message plain working start
              (idle server handshake)
              request
              (length request)))
      (client_on_open plain working (idle client handshake))
opening_handshake_example =
    opening_handshake plain working start (idle client handshake) (idle server handshake) zeros_text
      (λ before frame. refl)
      (record { hash_size = λ text. refl; no_callback = refl; no_legacy = refl })
      (record { is_type = refl; is_handshake = refl; is_up = refl })
      (record { is_type = refl; is_handshake = refl; is_up = refl }) (ground arith) refl
      request-absent calculate_accept-zeros

websocket_on_close-IsGone_example :
    Ensures
      (IsGone (idle server connected))
      (websocket_on_close plain working (idle server connected))
websocket_on_close-IsGone_example =
    websocket_on_close-IsGone plain working (idle server connected) refl
      (idle-IsResting server connected).sound

fragments-delivered_example :
    Ensures
      (λ d. Ensures (Assembles (idle server connected) (none, (binary_data, 5 ∷ 6 ∷ 7 ∷ []) ∷ [])) (
        drain is_session_up
          (reader plain working start)
          (1 + 1)
          (idle server connected)
          (filled (wire d.sent))))
      (send_parts working
        (idle client connected)
        (fragments binary_data (5 ∷ 6 ∷ []) ((7 ∷ []) ∷ [])))
fragments-delivered_example =
    fragments-delivered plain working working start (idle client connected) (idle server connected)
      binary_data (5 ∷ 6 ∷ []) ((7 ∷ []) ∷ []) (λ n size. refl) (λ before frame. refl)
      (λ n size. refl) (λ m c. refl) (refl, refl) refl (idle-IsResting server connected, refl, refl)
      refl refl refl (omega arith, (omega arith, tt)) refl (omega arith)

-- Two whole frames of a client, a fragment and the last one.
abbrev two_frames : List (Part × ℕ)
two_frames = (first binary_data false (5 ∷ 6 ∷ []), 7) ∷ (next true (8 ∷ []), 9) ∷ []

abbrev two_bytes : List ℕ
two_bytes = stream true two_frames

two_bytes_small : length two_bytes < 2 ^ 64
two_bytes_small = omega (arith, length-stream true two_frames)

two_bytes-HasFrames : HasFrames true (idle server connected) (unread (filled two_bytes))
two_bytes-HasFrames = record {
  frame = (first binary_data false (5 ∷ 6 ∷ []), 7);
  frames = (next true (8 ∷ []), 9) ∷ [];
  before = none;
  afterwards = (none, (binary_data, 5 ∷ 6 ∷ 8 ∷ []) ∷ []);
  stands = (idle-IsResting server connected, refl, refl);
  accepted = refl;
  right = refl;
  ready = refl;
  are_bytes = (omega arith, (omega arith, tt));
  whole = (filled-IsFit two_bytes two_bytes_small).1;
  room = omega (arith, two_bytes_small, ap length (filled-IsFit two_bytes two_bytes_small).1);
}

drain-ends_example :
    Ensures
      (λ out.
        Drains is_session_up
          (reader plain working start)
          (idle server connected)
          (unread (filled two_bytes))
          out.0
          (unread out.1)
        × IsFit out.1)
      (drain is_session_up
        (reader plain working start)
        (1 + length two_bytes)
        (idle server connected)
        (filled two_bytes))
drain-ends_example =
    drain-ends is_session_up (reader plain working start) (HasFrames true)
      (whole-IsReader plain working start (λ n size. refl) (λ m c. refl) true)
      (1 + length two_bytes) (idle server connected) (filled two_bytes) two_bytes-HasFrames
      (filled-IsFit two_bytes two_bytes_small).0 (omega arith)
