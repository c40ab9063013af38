-- ===== src/Utf8/Sequence.antt =====
-- The validator's loop inside a multi-byte sequence.
use ezwebsocket.Prelude.{ℕ, ◌+◌, ◌*◌, ◌%◌, ◌^◌, ◌≤◌, ◌<◌, arith}
use ezwebsocket.Prelude.{◌≡◌, refl, ap, List, ◌∷◌}
use ezwebsocket.Utf8.{Utf8State, ok, fail, busy, utf8_validate_single, validate_loop}
use ezwebsocket.Utf8.Scalar.{IsScalar}
use ezwebsocket.Utf8.Steps.{
  pending, not_continuation, continuation, shift_in_last, shift_in_second_last, shift_in_third_last,
  judge_pending, judge_last, least,
}

abbrev pub IsContinuation : ℕ → Type 0
IsContinuation c = (0x80 ≤ c) × (c < 0xC0)

-- The loop over one byte, by what the byte does.
pub loop_goes_on :
    (state next : Utf8State) (c handle after : ℕ) (rest : List ℕ)
    → utf8_validate_single c handle ≡ (next, after)
    → (next ≡ fail → ⊥)
    → validate_loop state (c ∷ rest) handle ≡ validate_loop next rest after
unfolding validate_loop
loop_goes_on state ok c handle after rest step alive =
    rw (step, validate_loop) (ap (λ (p : Utf8State × ℕ). validate_loop ok rest p.1) step)
loop_goes_on state busy c handle after rest step alive =
    rw (step, validate_loop) (ap (λ (p : Utf8State × ℕ). validate_loop busy rest p.1) step)
loop_goes_on state fail c handle after rest step alive = absurd (alive refl)

pub loop_stops :
    (state : Utf8State) (c handle : ℕ) (rest : List ℕ)
    → (utf8_validate_single c handle).0 ≡ fail
    → (validate_loop state (c ∷ rest) handle).0 ≡ fail
unfolding validate_loop
loop_stops state c handle rest step = ground arith

-- Bytes inside a sequence: what acceptance of the whole says of the next byte.
pub last_byte :
    (state : Utf8State) (kind q c : ℕ) (rest : List ℕ)
    → 0 < kind
    → kind < 4
    → q < 2 ^ 16
    → c < 0x100
    → (validate_loop state (c ∷ rest) (pending 1 kind (q * 64))).0 ≡ ok
    → IsContinuation c
      × IsScalar (q * 64 + c % 64)
      × (least kind ≤ q * 64 + c % 64)
      × ((validate_loop ok rest 0).0 ≡ ok)
unfolding validate_loop
last_byte state kind q c rest some_kind hk hq byte h = ground (
  arith,
  not_continuation c (pending 1 kind (q * 64)),
  continuation c (pending 1 kind (q * 64)),
  shift_in_last c kind q,
  judge_last kind (q * 64 + c % 64),
)

pub second_last_byte :
    (state : Utf8State) (kind q c : ℕ) (rest : List ℕ)
    → 0 < kind
    → kind < 4
    → q < 2 ^ 10
    → c < 0x100
    → (validate_loop state (c ∷ rest) (pending 2 kind (q * 4096))).0 ≡ ok
    → IsContinuation c
      × ((validate_loop busy rest (pending 1 kind ((q * 64 + c % 64) * 64))).0 ≡ ok)
unfolding validate_loop
second_last_byte state kind q c rest some_kind hk hq byte h = ground (
  arith,
  not_continuation c (pending 2 kind (q * 4096)),
  continuation c (pending 2 kind (q * 4096)),
  shift_in_second_last c kind q,
  judge_pending 1 kind ((q * 64 + c % 64) * 64),
)

pub third_last_byte :
    (state : Utf8State) (kind q c : ℕ) (rest : List ℕ)
    → 0 < kind
    → kind < 4
    → q < 2 ^ 4
    → c < 0x100
    → (validate_loop state (c ∷ rest) (pending 3 kind (q * 262144))).0 ≡ ok
    → IsContinuation c
      × ((validate_loop busy rest (pending 2 kind ((q * 64 + c % 64) * 4096))).0 ≡ ok)
      × (q * 64 + c % 64 < 272)
unfolding validate_loop
third_last_byte state kind q c rest some_kind hk hq byte h = ground (
  arith,
  not_continuation c (pending 3 kind (q * 262144)),
  continuation c (pending 3 kind (q * 262144)),
  shift_in_third_last c kind q,
  judge_pending 2 kind ((q * 64 + c % 64) * 4096),
)
