-- ===== src/Reading.antt =====
-- The reading of a connection: one turn of the outer loop of `connectionThread` in
-- lib/socket_server/socket_server.c and of `socketClientThread` in lib/socket_client/socket_client.c,
-- after `select` has found the socket readable; while it lasts, no other thread closes the
-- connection.
pub mod Complete
pub mod EndToEnd
mod Examples
use ezwebsocket.Prelude.{
  ℕ, zero, suc, ◌+◌, ◌*◌, Bool, true, false, ◌&&◌, List, [], Option, none, some,
}
use ezwebsocket.Prelude.{if◌then◌else◌, ◌>>=◌, ◌==◌, ltb, length}
use ezwebsocket.Connection.{WsType, client, server}
use ezwebsocket.DynBuffer.{DynBuffer, bytes_free, increase_to, receive}
use ezwebsocket.SocketServer.{drain}

-- `READ_SIZE` of the server and `MIN_ALLOC_SIZE` of the client.
abbrev pub chunk_size : WsType → ℕ
chunk_size server = 1024
chunk_size client = 2048

-- `n >= 0`: what was received goes behind the rest; nothing is written for 0 bytes.
abbrev pub store : DynBuffer → List ℕ → Option DynBuffer
store b received = if length received == 0 then some b else receive b received

-- `recv` on the socket of a world: at most so many bytes, `none` for -1. `got` says whether an
-- allocation of the buffer succeeds.
module _ {W : Type 0} (recv : ℕ → W → Option (List ℕ) × W) (got : ℕ → Bool) where
  -- The room that is made before `recv`, and the next value of `increase`.
  pub make_room : WsType → ℕ → DynBuffer → DynBuffer × ℕ
  make_room type increase b =
      if ltb (bytes_free b) (chunk_size type)
      then (
        (increase_to (got (chunk_size type * increase)) b (chunk_size type * increase)).1,
        increase + 1,
      )
      else (b, increase)

  -- The inner loop that reads until less comes than there is room; the answer is false where the
  -- peer has closed. `fuel` bounds the rounds.
  pub read_all : WsType → ℕ → ℕ → Bool → W → DynBuffer → Option (Bool × W × DynBuffer)
  read_all type zero increase first w b = none
  read_all type (suc fuel) increase first w b =
      let (b1, increase1) = make_room type increase b in
      let (answer, w1) = recv (bytes_free b1) w in
      elim answer [
        | none ↦ some (true, w1, b1)
        | some received ↦ if first && length received == 0 then some (false, w1, b1) else (do
          b2 ← store b1 received
          let rest = read_all type fuel increase1 false w1 b2
          if length received == bytes_free b1 then rest else some (true, w1, b2))
      ]

  -- The turn: what can be read is read and, unless the peer has closed, handed over.
  pub on_readable :
      {A : Type 0}
      → (A → Bool)
      → (A → A)
      → (A → List ℕ → Option (ℕ × A))
      → WsType
      → ℕ
      → W
      → A
      → DynBuffer
      → Option (W × A × DynBuffer)
  on_readable is_up hang_up on_message type fuel w c b = do
    (is_open, w1, b1) ← read_all type fuel 1 true w b
    let c1 = if is_open then c else hang_up c
    if is_up c1
        then (do (c2, b2) ← drain is_up on_message fuel c1 b1; some (w1, c2, b2))
        else some (w1, c1, b1)

  -- The turn in `connectionThread`, and that in `socketClientThread`.
  abbrev pub server_on_readable :
      {A : Type 0}
      → (A → Bool)
      → (A → A)
      → (A → List ℕ → Option (ℕ × A))
      → ℕ
      → W
      → A
      → DynBuffer
      → Option (W × A × DynBuffer)
  server_on_readable is_up hang_up on_message = on_readable is_up hang_up on_message server

  abbrev pub client_on_readable :
      {A : Type 0}
      → (A → Bool)
      → (A → A)
      → (A → List ℕ → Option (ℕ × A))
      → ℕ
      → W
      → A
      → DynBuffer
      → Option (W × A × DynBuffer)
  client_on_readable is_up hang_up on_message = on_readable is_up hang_up on_message client
