-- ===== src/DynBuffer.antt =====
-- The receive buffer of lib/utils/dyn_buffer.c and dyn_buffer.h. `memory` is what `buffer` points to,
-- `size` cells of it, and `none` is NULL; a write outside of it is `none`.
pub mod Bounds
mod Examples
use ezwebsocket.Prelude.{
  ℕ, ◌+◌, ◌-◌, ◌%◌, ◌^◌, Bool, true, false, not, List, [], ◌++◌, Option, none, some,
}
use ezwebsocket.Prelude.{if◌then◌else◌, ltb, leb, ◌==◌, length, take, drop}

-- `struct dyn_buffer`. Only the used cells have a known content.
pub record DynBuffer : Type 0 where
  pub memory : Option (List ℕ)
  pub used : ℕ
  pub size : ℕ

-- `dynBuffer_init`.
pub init : DynBuffer
init = record { memory = none; used = 0; size = 0 }

-- `DYNBUFFER_BYTES_FREE`, in a `size_t`.
pub bytes_free : DynBuffer → ℕ
bytes_free b = (b.size + (2 ^ 64 - b.used)) % 2 ^ 64

-- The end of `dynBuffer_increase_to` where a `realloc` is needed.
pub reallocate : Bool → List ℕ → DynBuffer → ℕ → Bool × DynBuffer
reallocate got cells b num_free_bytes =
    if got then (true, record b { size = (b.used + num_free_bytes) % 2 ^ 64 }) else (false, init)

-- `dynBuffer_increase_to`; `got` says whether its allocation succeeds, and true is its 0.
pub increase_to : Bool → DynBuffer → ℕ → Bool × DynBuffer
increase_to got b num_free_bytes = elim b.memory [
  | none ↦
      if got
      then (true, record { memory = some []; used = 0; size = num_free_bytes })
      else (false, b)
  | some cells ↦
      if ltb (bytes_free b) num_free_bytes then reallocate got cells b num_free_bytes else (true, b)
]

-- `dynBuffer_removeLeadingBytes`.
pub remove_leading_bytes : DynBuffer → ℕ → Bool × DynBuffer
remove_leading_bytes b count = elim b.memory [
  | none ↦ (false, b)
  | some cells ↦
      if count == 0
      then (true, b)
      else if ltb b.used count
      then (false, b)
      else if ltb count b.used
      then (true, record b { memory = some (drop count cells); used = b.used - count })
      else (true, init)
]

-- `dynBuffer_delete`.
pub delete : DynBuffer → Bool × DynBuffer
delete b = elim b.memory [ none ↦ (false, b) | some cells ↦ (true, init) ]

-- `recv` into `DYNBUFFER_WRITE_POS` and `DYNBUFFER_INCREASE_WRITE_POS`: what was received goes behind
-- the used cells. A write outside the block is `none`.
pub receive : DynBuffer → List ℕ → Option DynBuffer
receive b received = elim b.memory [
  | none ↦ none
  | some cells ↦
      if leb (b.used + length received) b.size
      then some (record b {
        memory = some (take b.used cells ++ received);
        used = b.used + length received;
      })
      else none
]

-- The bytes that `DYNBUFFER_BUFFER` and `DYNBUFFER_SIZE` give to the reader.
pub unread : DynBuffer → List ℕ
unread b = elim b.memory [ none ↦ [] | some cells ↦ take b.used cells ]
