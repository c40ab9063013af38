-- ===== src/Message/Overflow.antt =====
-- The test of `parseMessage` whether a frame is complete adds two numbers of the peer in a `size_t`.
use ezwebsocket.Prelude.{
  ℕ, ◌+◌, ◌≤◌, ◌<◌, ◌%◌, ◌^◌, ◌≡◌, refl, arith, true, false, List, Option, none, some,
  if◌then◌else◌, ltb, ◌==◌, length,
}
use ezwebsocket.Frame.{binary, WsHeader}
use ezwebsocket.Frame.Masking.{read_payload_outside}
use ezwebsocket.Connection.{Connection, Env, Block, malloc, refcnt_allocate}
use ezwebsocket.Connection.Send.{HasMemory, allocate-got}
use ezwebsocket.Message.{
  store_first, start_message, handle_first_message, handle_message, parse_message,
}

module _ (env : Env) (memory : HasMemory env) where
  store_first_outside :
      (c : Connection) (bytes : List ℕ) (header : WsHeader)
      → 0 < header.payload_length
      → length bytes < header.payload_start_offset + header.payload_length
      → store_first env c bytes header ≡ none
  unfolding store_first
  store_first_outside c bytes header some_left outside =
      let out =
        if header.fin
        then refcnt_allocate env c header.payload_length
        else malloc env c header.payload_length in
      let got : out.0 ≡ true = allocate-got env c header.fin header.payload_length memory in
      let some_bytes : (header.payload_length == 0) ≡ false = ground arith in
      rw (some_bytes, got, read_payload_outside bytes header outside some_left) refl

  start_message_outside :
      (payload : Option Block) (c : Connection) (bytes : List ℕ) (header : WsHeader)
      → payload ≡ none
      → 0 < header.payload_length
      → length bytes < header.payload_start_offset + header.payload_length
      → start_message env payload c bytes header ≡ none
  unfolding start_message
  start_message_outside (some block) c bytes header is some_left outside = absurd (ground arith)
  start_message_outside none c bytes header is some_left outside =
      rw (store_first_outside c bytes header some_left outside) refl

  handle_first_outside :
      (c : Connection) (bytes : List ℕ) (header : WsHeader)
      → c.last_message.payload ≡ none
      → header.masked ≡ true
      → 0 < header.payload_length
      → length bytes < header.payload_start_offset + header.payload_length
      → handle_first_message env c bytes header ≡ none
  unfolding handle_first_message
  handle_first_outside c bytes header empty masked some_left outside =
      ground
        (arith, start_message_outside c.last_message.payload c bytes header empty some_left outside)

  -- A masked binary frame whose header was received and whose length makes the end of the frame
  -- wrap around counts as complete, and on a connection with no payload stored, where memory can be
  -- had, `parseMessage` reads past the receive buffer.
  pub parse_message_overflow :
      (c : Connection) (bytes : List ℕ) (len : ℕ) (header : WsHeader)
      → c.last_message.payload ≡ none
      → header.opcode ≡ binary
      → header.masked ≡ true
      → header.payload_start_offset ≤ len
      → header.payload_length < 2 ^ 64
      → 2 ^ 64 ≤ header.payload_start_offset + header.payload_length
      → length bytes < 2 ^ 64
      → len < 2 ^ 64
      → parse_message env c bytes len header ≡ none
  unfolding parse_message handle_message
  parse_message_overflow c bytes len header empty opcode masked fits small wraps room short =
      let whole : ltb len ((header.payload_start_offset + header.payload_length) % 2 ^ 64) ≡ false =
        ground arith in
      let outside = handle_first_outside c bytes header empty masked (omega arith) (omega arith) in
      ground (arith, outside)
