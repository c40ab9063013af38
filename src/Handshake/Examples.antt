-- ===== src/Handshake/Examples.antt =====
-- A request for "/" to the host "a", port 1, with a key of 24 letters, and a hash of twenty zeros.
use ezwebsocket.Prelude.{ℕ, ◌≡◌, refl, arith, true, List, [], ◌∷◌, ◌++◌, some, Ensures, length}
use ezwebsocket.Base64.Examples.{zeros, zeros_text, base64_encode-zeros}
use ezwebsocket.Handshake.{
  get, host, upgrade, version, key_id, starts_with, request_start, calculate_accept, check_reply,
  handshake_request, handshake_reply, parse_http_header,
}
use ezwebsocket.Handshake.Search.{absent}
use ezwebsocket.Handshake.Agreement.{parse_http_header-request, check_reply-handshake_reply}

abbrev pub key : List ℕ
key =
    65 ∷ 66 ∷ 67 ∷ 68 ∷ 69 ∷ 70 ∷ 71 ∷ 72 ∷ 73 ∷ 74 ∷ 75 ∷ 76 ∷ 77 ∷ 78 ∷ 79 ∷ 80 ∷ 81 ∷ 82 ∷ 83
    ∷ 84 ∷ 85 ∷ 86 ∷ 61 ∷ 61 ∷ []

pub request-absent :
    absent key_id (request_start (47 ∷ []) (97 ∷ []) (49 ∷ [])) (key_id ++ (32 ∷ key ++ version))
    ≡ true
unfolding absent starts_with key_id request_start get host upgrade version
request-absent = refl

pub calculate_accept-zeros : calculate_accept (λ text. zeros) (λ size. true) key ≡ some zeros_text
unfolding calculate_accept
calculate_accept-zeros = base64_encode-zeros

parse_http_header-request_example :
    parse_http_header
      (handshake_request (47 ∷ []) (97 ∷ []) (49 ∷ []) key)
      (length (handshake_request (47 ∷ []) (97 ∷ []) (49 ∷ []) key))
    ≡ some (some key)
parse_http_header-request_example =
    parse_http_header-request (47 ∷ []) (97 ∷ []) (49 ∷ []) key (ground arith) refl request-absent

check_reply-handshake_reply_example :
    Ensures
      (λ reply.
        check_reply (λ text. zeros) (λ size. true) key reply (length reply)
        ≡ some (true, length reply))
      (handshake_reply zeros_text)
check_reply-handshake_reply_example =
    check_reply-handshake_reply (λ text. zeros) (λ size. true) key zeros_text (λ text. refl)
      calculate_accept-zeros
