-- ===== src/Utf8.antt =====
-- The UTF-8 validator of lib/utils/utf8.c. `*handle` is passed and returned; it is an
-- `unsigned long`, taken as 64 bits wide.
pub mod Scalar
pub mod Steps
mod Sequence
mod Split
pub mod Strings
pub mod Fragments
mod Examples
use ezwebsocket.Prelude.{ℕ, ◌+◌, ◌-◌, ◌*◌, ◌/◌, ◌%◌, ◌^◌, bit_and, bit_or}
use ezwebsocket.Prelude.{Bool, true, false, not, ◌&&◌, List, [], ◌∷◌, leb, ltb, ◌==◌, if◌then◌else◌}

-- `enum utf8_state`.
pub data Utf8State : Type 0 where
  ok fail busy : Utf8State

-- The smallest value that the length of the sequence, kept in two bits of the handle, allows.
abbrev pub overlong : ℕ → Bool
overlong handle =
    let kind = bit_and handle 0x30000000 in
    let value = bit_and handle 0x0FFFFFFF in
    if kind == 0x30000000
    then ltb value 65536
    else if kind == 0x20000000
    then ltb value 2048
    else if kind == 0x10000000
    then ltb value 128
    else false

-- The first byte of a character: the handle that it leaves, if it can start a sequence.
pub first_of_sequence : ℕ → ℕ × Bool
first_of_sequence c =
    if bit_and c 0xE0 == 0xC0
    then (bit_or (bit_and c 0x1F * 2 ^ (1 * 6)) 0x50000000, true)
    else if bit_and c 0xF0 == 0xE0
    then (bit_or (bit_and c 0x0F * 2 ^ (2 * 6)) 0xa0000000, true)
    else if bit_and c 0xF8 == 0xF0
    then (bit_or (bit_and c 0x07 * 2 ^ (3 * 6)) 0xf0000000, true)
    else (0, false)

-- `utf8_validate_single` where `*handle` is 0.
pub validate_first : ℕ → Utf8State × ℕ
validate_first c =
    if leb c 0x7F
    then (ok, 0)
    else (let (handle, starts) = first_of_sequence c in
        if not starts
        then (fail, 0)
        else if ltb 0x10FFFF (bit_and handle 0x0FFFFFFF)
        then (fail, handle)
        else (busy, handle))

-- `*handle -= 0x40000000; *handle |= ((data & 0x3F) << (6 * (*handle >> 30)));`
pub shift_in : ℕ → ℕ → ℕ
shift_in c handle =
    let lower = (handle + 2 ^ 64 - 0x40000000) % 2 ^ 64 in
    bit_or lower (bit_and c 0x3F * 2 ^ (6 * (lower / 2 ^ 30)) % 2 ^ 64)

-- The tests on the handle after a continuation byte.
pub judge : ℕ → Utf8State × ℕ
judge handle =
    if ltb 0x10FFFF (bit_and handle 0x0FFFFFFF)
    then (fail, handle)
    else if not (bit_and handle 0xC0000000 == 0)
    then (busy, handle)
    else if overlong handle
    then (fail, handle)
    else if leb 0xD800 (bit_and handle 0x0FFFFFFF) && leb (bit_and handle 0x0FFFFFFF) 0xDFFF
    then (fail, handle)
    else (ok, 0)

-- `utf8_validate_single`.
pub utf8_validate_single : ℕ → ℕ → Utf8State × ℕ
utf8_validate_single c handle =
    if handle == 0
    then validate_first c
    else if not (bit_and c 0xC0 == 0x80)
    then (fail, handle)
    else judge (shift_in c handle)

-- The loop of `utf8_validate` over the bytes left, with the state of the last one.
pub validate_loop : Utf8State → List ℕ → ℕ → Utf8State × ℕ
validate_loop state [] handle = (state, handle)
validate_loop state (c ∷ rest) handle =
    let (next, handle') = utf8_validate_single c handle in
    elim next [
      | fail ↦ (fail, handle')
      | ok ↦ validate_loop ok rest handle'
      | busy ↦ validate_loop busy rest handle'
    ]

-- `utf8_validate`.
pub utf8_validate : List ℕ → ℕ → Utf8State × ℕ
utf8_validate string handle = validate_loop ok string handle
