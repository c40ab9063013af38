-- ===== src/Utf8/Steps.antt =====
-- One byte of the validator, in arithmetic: what a lead byte and a continuation byte do.
use ezwebsocket.Prelude.{ℕ, ◌+◌, ◌-◌, ◌*◌, ◌/◌, ◌%◌, ◌^◌, ◌≤◌, ◌<◌, bit_and, bit_or, arith}
use ezwebsocket.Prelude.{◌≡◌, ◌∙◌, ltb, leb, ◌==◌, if◌then◌else◌, ◌&&◌, ◌⊎◌, inl, inr}
use ezwebsocket.Prelude.Bits.{bit_and_low, bit_and_high, bit_or_field, bit_or_comm}
use ezwebsocket.Utf8.{
  ok, fail, busy, first_of_sequence, validate_first, shift_in, judge, utf8_validate_single,
}

-- The handle while `rest` bytes are still to come of a sequence of `kind + 1` bytes.
abbrev pub pending : ℕ → ℕ → ℕ → ℕ
pending rest kind value = rest * 2 ^ 30 + kind * 2 ^ 28 + value

-- The fields of a handle.
value_field : (handle : ℕ) → bit_and handle 0x0FFFFFFF ≡ handle % 2 ^ 28
value_field handle = bit_and_low 28 handle

count_field : (handle : ℕ) → bit_and handle 0xC0000000 ≡ handle / 2 ^ 30 % 4 * 2 ^ 30
count_field handle = omega (arith, bit_and_high 30 handle 3, bit_and_low 2 (handle / 2 ^ 30))

kind_field : (handle : ℕ) → bit_and handle 0x30000000 ≡ handle / 2 ^ 28 % 4 * 2 ^ 28
kind_field handle = omega (arith, bit_and_high 28 handle 3, bit_and_low 2 (handle / 2 ^ 28))

-- The patterns of the lead bytes.
high_bits :
    (c : ℕ)
    → (bit_and c 0xE0 ≡ c / 32 % 8 * 32)
      × (bit_and c 0xF0 ≡ c / 16 % 16 * 16)
      × (bit_and c 0xF8 ≡ c / 8 % 32 * 8)
      × (bit_and c 0xC0 ≡ c / 64 % 4 * 64)
high_bits c = (
  omega (arith, bit_and_high 5 c 7, bit_and_low 3 (c / 2 ^ 5)),
  omega (arith, bit_and_high 4 c 15, bit_and_low 4 (c / 2 ^ 4)),
  omega (arith, bit_and_high 3 c 31, bit_and_low 5 (c / 2 ^ 3)),
  omega (arith, bit_and_high 6 c 3, bit_and_low 2 (c / 2 ^ 6)),
)

low_bits :
    (c : ℕ)
    → (bit_and c 0x1F ≡ c % 32)
      × (bit_and c 0x0F ≡ c % 16)
      × (bit_and c 0x07 ≡ c % 8)
      × (bit_and c 0x3F ≡ c % 64)
low_bits c = (bit_and_low 5 c, bit_and_low 4 c, bit_and_low 3 c, bit_and_low 6 c)

-- `*handle |= marker` behind a value that lies below the marker's bits.
or_marker :
    (value marker : ℕ)
    → value < 2 ^ 28
    → marker < 16
    → bit_or value (marker * 2 ^ 28) ≡ marker * 2 ^ 28 + value
or_marker value marker small few = omega (
  arith,
  bit_or_comm 32 value (marker * 2 ^ 28) (omega arith) (omega arith),
  bit_or_field 28 marker value small,
)

-- A byte below 0x80 is a character by itself.
pub lead_one : (c : ℕ) → c < 0x80 → utf8_validate_single c 0 ≡ (ok, 0)
unfolding utf8_validate_single validate_first
lead_one c h = ground arith

pub lead_two :
    (c : ℕ) → 0xC0 ≤ c → c < 0xE0 → utf8_validate_single c 0 ≡ (busy, pending 1 1 (c % 32 * 64))
unfolding utf8_validate_single validate_first first_of_sequence
lead_two c lo hi = ground (
  arith,
  high_bits c,
  low_bits c,
  or_marker (c % 32 * 64) 5,
  value_field (pending 1 1 (c % 32 * 64)),
)

pub lead_three :
    (c : ℕ) → 0xE0 ≤ c → c < 0xF0 → utf8_validate_single c 0 ≡ (busy, pending 2 2 (c % 16 * 4096))
unfolding utf8_validate_single validate_first first_of_sequence
lead_three c lo hi = ground (
  arith,
  high_bits c,
  low_bits c,
  or_marker (c % 16 * 4096) 10,
  value_field (pending 2 2 (c % 16 * 4096)),
)

pub lead_four :
    (c : ℕ) → 0xF0 ≤ c → c < 0xF5 → utf8_validate_single c 0 ≡ (busy, pending 3 3 (c % 8 * 262144))
unfolding utf8_validate_single validate_first first_of_sequence
lead_four c lo hi = ground (
  arith,
  high_bits c,
  low_bits c,
  or_marker (c % 8 * 262144) 15,
  value_field (pending 3 3 (c % 8 * 262144)),
)

-- No character starts with a continuation byte or with a byte from 0xF5 on.
pub lead_none :
    (c : ℕ)
    → ((0x80 ≤ c) × (c < 0xC0)) ⊎ ((0xF5 ≤ c) × (c < 0x100))
    → (utf8_validate_single c 0).0 ≡ fail
unfolding utf8_validate_single validate_first first_of_sequence
lead_none c (inl mid) = ground (arith, high_bits c)
lead_none c (inr top) = ground (
  arith,
  high_bits c,
  low_bits c,
  or_marker (c % 8 * 262144) 15,
  value_field (pending 3 3 (c % 8 * 262144)),
)

-- A byte that is no continuation byte, inside a sequence.
pub not_continuation :
    (c handle : ℕ)
    → (c < 0x80) ⊎ (0xC0 ≤ c)
    → c < 0x100
    → 0 < handle
    → utf8_validate_single c handle ≡ (fail, handle)
unfolding utf8_validate_single
not_continuation c handle h byte started = ground (arith, high_bits c)

pub continuation :
    (c handle : ℕ)
    → 0x80 ≤ c
    → c < 0xC0
    → 0 < handle
    → utf8_validate_single c handle ≡ judge (shift_in c handle)
unfolding utf8_validate_single
continuation c handle lo hi started = ground (arith, high_bits c)

-- `shift_in` with the handle's count already lowered, and the shift known.
shift_in_field :
    (c handle lower rest : ℕ)
    → (handle + 2 ^ 64 - 0x40000000) % 2 ^ 64 ≡ lower
    → lower / 2 ^ 30 ≡ rest
    → shift_in c handle ≡ bit_or lower (c % 64 * 2 ^ (6 * rest) % 2 ^ 64)
unfolding shift_in
shift_in_field c handle lower rest down count = rw (down, count, bit_and_low 6 c)

pub shift_in_last :
    (c kind q : ℕ)
    → kind < 4
    → q < 2 ^ 16
    → shift_in c (pending 1 kind (q * 64)) ≡ pending 0 kind (q * 64 + c % 64)
shift_in_last c kind q hk hq =
    let field : ℕ = kind * 2 ^ 22 + q in
    shift_in_field c (pending 1 kind (q * 64)) (field * 2 ^ 6) 0 (omega arith) (omega arith)
    ∙ omega (arith, bit_or_field 6 field (c % 64 * 2 ^ (6 * 0) % 2 ^ 64) (omega arith))

pub shift_in_second_last :
    (c kind q : ℕ)
    → kind < 4
    → q < 2 ^ 10
    → shift_in c (pending 2 kind (q * 4096)) ≡ pending 1 kind ((q * 64 + c % 64) * 64)
shift_in_second_last c kind q hk hq =
    let field : ℕ = 1 * 2 ^ 18 + kind * 2 ^ 16 + q in
    shift_in_field c (pending 2 kind (q * 4096)) (field * 2 ^ 12) 1 (omega arith) (omega arith)
    ∙ omega (arith, bit_or_field 12 field (c % 64 * 2 ^ (6 * 1) % 2 ^ 64) (omega arith))

pub shift_in_third_last :
    (c kind q : ℕ)
    → kind < 4
    → q < 2 ^ 4
    → shift_in c (pending 3 kind (q * 262144)) ≡ pending 2 kind ((q * 64 + c % 64) * 4096)
shift_in_third_last c kind q hk hq =
    let field : ℕ = 2 * 2 ^ 12 + kind * 2 ^ 10 + q in
    shift_in_field c (pending 3 kind (q * 262144)) (field * 2 ^ 18) 2 (omega arith) (omega arith)
    ∙ omega (arith, bit_or_field 18 field (c % 64 * 2 ^ (6 * 2) % 2 ^ 64) (omega arith))

-- Bytes are still missing: only the range is tested.
pub judge_pending :
    (rest kind value : ℕ)
    → 0 < rest
    → rest < 4
    → kind < 4
    → value < 2 ^ 28
    → judge (pending rest kind value) ≡ (
        if ltb 0x10FFFF value
        then (fail, pending rest kind value)
        else (busy, pending rest kind value))
unfolding judge
judge_pending rest kind value some_left few hk small =
    ground (arith, value_field (pending rest kind value), count_field (pending rest kind value))

-- The smallest code point that needs `kind` continuation bytes.
abbrev pub least : ℕ → ℕ
least kind = if kind == 3 then 65536 else if kind == 2 then 2048 else if kind == 1 then 128 else 0

-- The last byte is in: the range, the shortest form and the surrogates are tested.
pub judge_last :
    (kind value : ℕ)
    → kind < 4
    → value < 2 ^ 28
    → judge (pending 0 kind value) ≡ (
        if ltb 0x10FFFF value
        then (fail, pending 0 kind value)
        else if ltb value (least kind)
        then (fail, pending 0 kind value)
        else if leb 0xD800 value && leb value 0xDFFF
        then (fail, pending 0 kind value)
        else (ok, 0))
unfolding judge
judge_last kind value hk small = ground (
  arith,
  value_field (pending 0 kind value),
  count_field (pending 0 kind value),
  kind_field (pending 0 kind value),
)
