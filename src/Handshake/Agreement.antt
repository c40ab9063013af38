-- ===== src/Handshake/Agreement.antt =====
-- The strings of the opening handshake, written by one side and read by the other.
use ezwebsocket.Prelude.{ℕ, ◌+◌, ◌-◌, ◌≤◌, ◌<◌, ◌≡◌, refl, ap, arith, Bool, true, false, inl, inr}
use ezwebsocket.Prelude.{
  List, [], ◌∷◌, ◌++◌, some, ltb, ◌==◌, length, drop, take, All, append-nil, append_assoc,
  length-append, length-take, drop-append, Ensures, Ensures-if, Ensures-some,
}
use ezwebsocket.Base64.Decode.{base64_encode-bounds}
use ezwebsocket.Handshake.{
  key_id, reply_id, header_end, reply_start, version, key_length, reply_key_length, is_graph,
  strnstr, skip_blanks, skip_blanks_within, parse_http_header, concat_key, calculate_accept,
  check_reply, request_start, handshake_request, handshake_reply,
}
use ezwebsocket.Handshake.Search.{
  absent, strnstr-append, copy_key-append, equal_refl, reply_id-absent, end_absent,
}

skip_blanks_space :
    (key rest : List ℕ)
    → All (λ c. is_graph c ≡ true) key
    → 0 < length key
    → skip_blanks (32 ∷ key ++ rest) ≡ some (key ++ rest)
unfolding skip_blanks
skip_blanks_space [] rest graphs some_left = absurd (omega arith)
skip_blanks_space (c ∷ key) rest (graph, graphs) some_left = rw graph refl

drop_past :
    (before id tail : List ℕ) → drop (length before + length id) (before ++ (id ++ tail)) ≡ tail
drop_past before id tail =
    rw (← append_assoc before id tail)
      (drop-append (length before + length id) (before ++ id) tail (length-append before id))

-- A server finds, in the request that `sendWsHandshakeRequest` writes, the key of the client, where
-- the key has 24 printable characters and the name of its field stands nowhere before it.
pub parse_http_header-request :
    (endpoint address port key : List ℕ)
    → All (λ c. is_graph c ≡ true) key
    → length key ≡ key_length
    → absent key_id (request_start endpoint address port) (key_id ++ (32 ∷ key ++ version)) ≡ true
    → parse_http_header
        (handshake_request endpoint address port key)
        (length (handshake_request endpoint address port key))
      ≡ some (some key)
unfolding parse_http_header handshake_request
parse_http_header-request endpoint address port key graphs long free =
    let before = request_start endpoint address port in
    let tail = 32 ∷ key ++ version in
    let total : length (before ++ (key_id ++ tail))
        ≡ length before + (length key_id + length tail) =
      omega (arith, length-append before (key_id ++ tail), length-append key_id tail) in
    let text : length tail ≡ 1 + length (key ++ version) = omega arith in
    let len = length (before ++ (key_id ++ tail)) in
    rw
      (
        strnstr-append before key_id tail len free (omega arith),
        drop_past before key_id tail,
        skip_blanks_space key version graphs (omega arith),
        copy_key-append key version key_length (len - (len - length (key ++ version))) graphs
            (omega arith) (omega (arith, length-append key version)) (inl (omega arith)),
      )
      (ground arith)

graphs_of : (xs : List ℕ) → All (λ c. (33 ≤ c) × (c ≤ 126)) xs → All (λ c. is_graph c ≡ true) xs
graphs_of [] h = tt
graphs_of (x ∷ xs) (here, h) = (ground arith, graphs_of xs h)

no_return : (xs : List ℕ) → All (λ c. (33 ≤ c) × (c ≤ 126)) xs → All (λ c. (c == 13) ≡ false) xs
no_return [] h = tt
no_return (x ∷ xs) (here, h) = (ground arith, no_return xs h)

skip_blanks_within_space :
    (key rest : List ℕ) (room : ℕ)
    → All (λ c. is_graph c ≡ true) key
    → 0 < length key
    → 1 < room
    → skip_blanks_within (32 ∷ key ++ rest) room ≡ some (some (key ++ rest, room - 1))
unfolding skip_blanks_within
skip_blanks_within_space [] rest room graphs some_left room_left = absurd (omega arith)
skip_blanks_within_space (c ∷ key) rest room (graph, graphs) some_left room_left = ground arith

-- What `calculateSecWebSocketAccept` returns has 28 printable characters.
calculate_accept_lem :
    (sha1 : List ℕ → List ℕ) (alloc_ok : ℕ → Bool) (key accept : List ℕ)
    → ((text : List ℕ) → length (sha1 text) ≡ 20)
    → calculate_accept sha1 alloc_ok key ≡ some accept
    → (length accept ≡ 28) × All (λ c. (33 ≤ c) × (c ≤ 126)) accept
unfolding calculate_accept
calculate_accept_lem sha1 alloc_ok key accept size returns =
    let (long, bounds) =
      base64_encode-bounds alloc_ok (take 20 (sha1 (concat_key key))) accept returns in
    (omega (arith, long, size (concat_key key), length-take 20 (sha1 (concat_key key))), bounds)

find_end :
    (accept : List ℕ)
    → All (λ c. (c == 13) ≡ false) accept
    → let reply = reply_start ++ (reply_id ++ (32 ∷ accept ++ header_end)) in
      strnstr reply header_end (length reply)
      ≡ some (some (length (reply_start ++ (reply_id ++ (32 ∷ accept)))))
find_end accept clean =
    let front = reply_start ++ (reply_id ++ (32 ∷ accept)) in
    let split : reply_start ++ (reply_id ++ (32 ∷ accept ++ header_end))
        ≡ front ++ (header_end ++ []) =
      rw
        (
          append-nil header_end,
          append_assoc reply_start (reply_id ++ (32 ∷ accept)) header_end,
          append_assoc reply_id (32 ∷ accept) header_end,
        )
        refl in
    let free : absent header_end front (header_end ++ []) ≡ true =
      rw (append-nil header_end) (end_absent accept clean) in
    let size : length (front ++ (header_end ++ [])) ≡ length front + length (header_end ++ []) =
      length-append front (header_end ++ []) in
    let four : length (header_end ++ []) ≡ 4 = unfold header_end in refl in
    rw split
      (strnstr-append front header_end [] (length (front ++ (header_end ++ []))) free (omega arith))

check_reply_lem :
    (sha1 : List ℕ → List ℕ) (alloc_ok : ℕ → Bool) (key accept : List ℕ)
    → length accept ≡ 28
    → All (λ c. (33 ≤ c) × (c ≤ 126)) accept
    → calculate_accept sha1 alloc_ok key ≡ some accept
    → let reply = reply_start ++ (reply_id ++ (32 ∷ accept ++ header_end)) in
      check_reply sha1 alloc_ok key reply (length reply) ≡ some (true, length reply)
unfolding check_reply header_end
check_reply_lem sha1 alloc_ok key accept long bounds returns =
    let tail = 32 ∷ accept ++ header_end in
    let len = length (reply_start ++ (reply_id ++ tail)) in
    let total : len ≡ length reply_start + (length reply_id + (1 + (28 + length header_end))) =
      omega (
        arith,
        length-append reply_start (reply_id ++ tail),
        length-append reply_id tail,
        length-append accept header_end,
      ) in
    let room = len - (length reply_start + length reply_id) in
    let graphs = graphs_of accept bounds in
    rw
      (
        strnstr-append reply_start reply_id tail len (reply_id-absent tail) (omega arith),
        drop_past reply_start reply_id tail,
        skip_blanks_within_space accept header_end room graphs (omega arith) (omega arith),
        copy_key-append accept header_end reply_key_length (room - 1) graphs (omega arith)
            (omega arith) (inr (13, 10 ∷ 13 ∷ 10 ∷ [], refl, refl)),
        find_end accept (no_return accept bounds),
        returns,
        equal_refl accept,
      )
      (ap (λ n. some (true, n))
        (omega (
          arith,
          length-append reply_start (reply_id ++ (32 ∷ accept)),
          length-append reply_id (32 ∷ accept),
        )))

-- The reply that a server sends with the accept key of the client's key fits its buffer, and a
-- client takes it and finds its end, where the hash has 20 bytes.
pub check_reply-handshake_reply :
    (sha1 : List ℕ → List ℕ) (alloc_ok : ℕ → Bool) (key accept : List ℕ)
    → ((text : List ℕ) → length (sha1 text) ≡ 20)
    → calculate_accept sha1 alloc_ok key ≡ some accept
    → Ensures
        (λ reply. check_reply sha1 alloc_ok key reply (length reply) ≡ some (true, length reply))
        (handshake_reply accept)
unfolding handshake_reply
check_reply-handshake_reply sha1 alloc_ok key accept size returns =
    let (long, bounds) = calculate_accept_lem sha1 alloc_ok key accept size returns in
    let tail = 32 ∷ accept ++ header_end in
    Ensures-if
      (ltb (length (reply_start ++ (reply_id ++ tail)))
        (length reply_start + length reply_id + 3 + length header_end + 28))
      (λ _. Ensures-some _ (check_reply_lem sha1 alloc_ok key accept long bounds returns))
      (λ full. absurd (
        ground (
          arith,
          length-append reply_start (reply_id ++ tail),
          length-append reply_id tail,
          length-append accept header_end,
        )))
