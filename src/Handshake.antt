-- ===== src/Handshake.antt =====
-- `strnstr` of lib/utils/stringck.c and the opening handshake of lib/ezwebsocket.c. A string is the
-- list of its characters that may be read; a read behind them is `none`.
pub mod Search
pub mod Agreement
pub mod Examples
use ezwebsocket.Prelude.{
  ℕ, zero, suc, ◌+◌, ◌-◌, ◌≤◌, Bool, true, false, not, ◌&&◌, List, [], ◌∷◌, ◌++◌, Option, none,
  some,
}
use ezwebsocket.Prelude.{if◌then◌else◌, ◌>>=◌, ltb, leb, ◌==◌, length, drop, take}
use ezwebsocket.Base64.{base64_encode}

-- `WS_ACCEPT_MAGIC_KEY`, "258EAFA5-E914-47DA-95CA-C5AB0DC85B11".
abbrev pub magic_key : List ℕ
magic_key =
    50 ∷ 53 ∷ 56 ∷ 69 ∷ 65 ∷ 70 ∷ 65 ∷ 53 ∷ 45 ∷ 69 ∷ 57 ∷ 49 ∷ 52 ∷ 45 ∷ 52 ∷ 55 ∷ 68 ∷ 65 ∷ 45
    ∷ 57 ∷ 53 ∷ 67 ∷ 65 ∷ 45 ∷ 67 ∷ 53 ∷ 65 ∷ 66 ∷ 48 ∷ 68 ∷ 67 ∷ 56 ∷ 53 ∷ 66 ∷ 49 ∷ 49 ∷ []

-- `WS_HS_KEY_ID`, "Sec-WebSocket-Key:".
pub key_id : List ℕ
key_id =
    83 ∷ 101 ∷ 99 ∷ 45 ∷ 87 ∷ 101 ∷ 98 ∷ 83 ∷ 111 ∷ 99 ∷ 107 ∷ 101 ∷ 116 ∷ 45 ∷ 75 ∷ 101 ∷ 121 ∷ 58
    ∷ []

-- `WS_HS_REPLY_ID`, "Sec-WebSocket-Accept:".
pub reply_id : List ℕ
reply_id =
    83 ∷ 101 ∷ 99 ∷ 45 ∷ 87 ∷ 101 ∷ 98 ∷ 83 ∷ 111 ∷ 99 ∷ 107 ∷ 101 ∷ 116 ∷ 45 ∷ 65 ∷ 99 ∷ 99 ∷ 101
    ∷ 112 ∷ 116 ∷ 58 ∷ []

-- The end of an HTTP header, "\r\n\r\n".
pub header_end : List ℕ
header_end = 13 ∷ 10 ∷ 13 ∷ 10 ∷ []

-- `WS_HANDSHAKE_REPLY_BLUEPRINT` up to the name of its last field.
pub reply_start : List ℕ
reply_start =
    72 ∷ 84 ∷ 84 ∷ 80 ∷ 47 ∷ 49 ∷ 46 ∷ 49 ∷ 32 ∷ 49 ∷ 48 ∷ 49 ∷ 32 ∷ 83 ∷ 119 ∷ 105 ∷ 116 ∷ 99 ∷ 104
    ∷ 105 ∷ 110 ∷ 103 ∷ 32 ∷ 80 ∷ 114 ∷ 111 ∷ 116 ∷ 111 ∷ 99 ∷ 111 ∷ 108 ∷ 115 ∷ 13 ∷ 10 ∷ 85 ∷ 112
    ∷ 103 ∷ 114 ∷ 97 ∷ 100 ∷ 101 ∷ 58 ∷ 32 ∷ 119 ∷ 101 ∷ 98 ∷ 115 ∷ 111 ∷ 99 ∷ 107 ∷ 101 ∷ 116 ∷ 13
    ∷ 10 ∷ 67 ∷ 111 ∷ 110 ∷ 110 ∷ 101 ∷ 99 ∷ 116 ∷ 105 ∷ 111 ∷ 110 ∷ 58 ∷ 32 ∷ 85 ∷ 112 ∷ 103 ∷ 114
    ∷ 97 ∷ 100 ∷ 101 ∷ 13 ∷ 10 ∷ []

-- "GET ", the start of the format of `sendWsHandshakeRequest`.
pub get : List ℕ
get = 71 ∷ 69 ∷ 84 ∷ 32 ∷ []

-- " HTTP/1.1\r\nHost: ", its next part.
pub host : List ℕ
host = 32 ∷ 72 ∷ 84 ∷ 84 ∷ 80 ∷ 47 ∷ 49 ∷ 46 ∷ 49 ∷ 13 ∷ 10 ∷ 72 ∷ 111 ∷ 115 ∷ 116 ∷ 58 ∷ 32 ∷ []

-- Its part between the port and the name of the key's field.
pub upgrade : List ℕ
upgrade =
    13 ∷ 10 ∷ 85 ∷ 112 ∷ 103 ∷ 114 ∷ 97 ∷ 100 ∷ 101 ∷ 58 ∷ 32 ∷ 119 ∷ 101 ∷ 98 ∷ 115 ∷ 111 ∷ 99
    ∷ 107 ∷ 101 ∷ 116 ∷ 13 ∷ 10 ∷ 67 ∷ 111 ∷ 110 ∷ 110 ∷ 101 ∷ 99 ∷ 116 ∷ 105 ∷ 111 ∷ 110 ∷ 58 ∷ 32
    ∷ 85 ∷ 112 ∷ 103 ∷ 114 ∷ 97 ∷ 100 ∷ 101 ∷ 13 ∷ 10 ∷ []

-- Its part behind the key.
pub version : List ℕ
version =
    13 ∷ 10 ∷ 83 ∷ 101 ∷ 99 ∷ 45 ∷ 87 ∷ 101 ∷ 98 ∷ 83 ∷ 111 ∷ 99 ∷ 107 ∷ 101 ∷ 116 ∷ 45 ∷ 86 ∷ 101
    ∷ 114 ∷ 115 ∷ 105 ∷ 111 ∷ 110 ∷ 58 ∷ 32 ∷ 49 ∷ 51 ∷ 13 ∷ 10 ∷ 13 ∷ 10 ∷ []

-- `ws_HS_KEY_LEN - 1`, the characters of a key.
abbrev pub key_length : ℕ
key_length = 24

-- `sizeof(key) - 1` in `checkWsHandshakeReply`.
abbrev pub reply_key_length : ℕ
reply_key_length = 29

-- `isgraph` in the C locale.
abbrev pub is_graph : ℕ → Bool
is_graph c = leb 33 c && leb c 126

-- `strncmp(haystack, needle, strlen(needle)) == 0`: it reads up to the first difference.
pub starts_with : List ℕ → List ℕ → Option Bool
starts_with haystack [] = some true
starts_with [] (n ∷ needle) = none
starts_with (h ∷ haystack) (n ∷ needle) = if h == n then starts_with haystack needle else some false

-- The loop of `strnstr` with `rounds` rounds left, from index `i` on.
pub search : List ℕ → List ℕ → ℕ → ℕ → Option (Option ℕ)
search haystack needle zero i = some none
search haystack needle (suc rounds) i = do
  here ← starts_with haystack needle
  if here then some (some i) else search (drop 1 haystack) needle rounds (i + 1)

-- `strnstr`: the index of the first occurrence.
pub strnstr : List ℕ → List ℕ → ℕ → Option (Option ℕ)
strnstr haystack needle haystacklen = search haystack needle haystacklen 0

-- `while (!isgraph(*cpnt)) cpnt++;`: what is left from the first such character on.
pub skip_blanks : List ℕ → Option (List ℕ)
skip_blanks [] = none
skip_blanks (c ∷ rest) = if is_graph c then some (c ∷ rest) else skip_blanks rest

-- The same loop in `checkWsHandshakeReply`, where `room` characters of the header are left to step
-- over; an inner `none` is the `return false`.
pub skip_blanks_within : List ℕ → ℕ → Option (Option (List ℕ × ℕ))
skip_blanks_within [] room = none
skip_blanks_within (c ∷ rest) room =
    if is_graph c
    then some (some (c ∷ rest, room))
    else if leb room 1
    then some none
    else skip_blanks_within rest (room - 1)

-- The loop that copies a key: `rounds` characters at most, `room` of them before the end of the
-- header. A character is read before the end is looked at.
pub copy_key : List ℕ → ℕ → ℕ → Option (List ℕ)
copy_key text zero room = some []
copy_key [] (suc rounds) room = none
copy_key (c ∷ rest) (suc rounds) room =
    if is_graph c && ltb 0 room
    then (do more ← copy_key rest rounds (room - 1); some (c ∷ more))
    else some []

-- `strcmp(a, b) == 0`.
pub equal : List ℕ → List ℕ → Bool
equal [] [] = true
equal [] (y ∷ ys) = false
equal (x ∷ xs) [] = false
equal (x ∷ xs) (y ∷ ys) = x == y && equal xs ys

-- `parseHttpHeader`: an inner `none` is -1.
pub parse_http_header : List ℕ → ℕ → Option (Option (List ℕ))
parse_http_header header len = do
  found ← strnstr header key_id len
  elim found [
    | none ↦ some none
    | some i ↦ (do
      text ← skip_blanks (drop (i + length key_id) header)
      key ← copy_key text key_length (len - (length header - length text))
      some (if ltb (length key) key_length then none else some key))
  ]

-- `snprintf(concatString, sizeof(concatString), "%s" ..., key)`, with 63 characters of room.
pub concat_key : List ℕ → List ℕ
concat_key key = take 63 (key ++ magic_key)

module _ (sha1 : List ℕ → List ℕ) (alloc_ok : ℕ → Bool) where
  -- `calculateSecWebSocketAccept`; `none` is NULL.
  pub calculate_accept : List ℕ → Option (List ℕ)
  calculate_accept key = base64_encode alloc_ok (take 20 (sha1 (concat_key key)))

  -- `checkWsHandshakeReply` of a client that sent `ws_key`: whether the reply is right, and `*len`.
  pub check_reply : List ℕ → List ℕ → ℕ → Option (Bool × ℕ)
  check_reply ws_key header len = do
    found ← strnstr header reply_id len
    elim found [
      | none ↦ some (false, len)
      | some i ↦ (do
        skipped ←
            skip_blanks_within (drop (i + length reply_id) header) (len - (i + length reply_id))
        elim skipped [
          | none ↦ some (false, len)
          | some (text, room) ↦ (do
            key ← copy_key text reply_key_length room
            ending ← strnstr header header_end len
            some (elim ending [
              | none ↦ (false, len)
              | some j ↦ (
                elim (calculate_accept ws_key) [ none ↦ false | some accept ↦ equal key accept ],
                j + length header_end,
              )
            ]))
        ])
    ]

-- The string of `sendWsHandshakeRequest`, up to the name of the key's field.
pub request_start : List ℕ → List ℕ → List ℕ → List ℕ
request_start endpoint address port = get ++ endpoint ++ host ++ address ++ (58 ∷ port) ++ upgrade

pub handshake_request : List ℕ → List ℕ → List ℕ → List ℕ → List ℕ
handshake_request endpoint address port ws_key =
    request_start endpoint address port ++ (key_id ++ (32 ∷ ws_key ++ version))

-- The string of `sendWsHandshakeReply`; `none` where it does not fit the buffer.
pub handshake_reply : List ℕ → Option (List ℕ)
handshake_reply reply_key =
    let reply = reply_start ++ (reply_id ++ (32 ∷ reply_key ++ header_end)) in
    if ltb (length reply) (length reply_start + length reply_id + 3 + length header_end + 28)
    then some reply
    else none
