-- ===== src/Utf8/Strings.antt =====
-- Whole strings: `utf8_validate` accepts exactly the encodings of texts.
use ezwebsocket.Prelude.{ℕ, zero, suc, ◌+◌, ◌*◌, ◌/◌, ◌%◌, ◌^◌, ◌≤◌, ◌<◌, arith}
use ezwebsocket.Prelude.{◌≡◌, refl, ap, subst, ◌∙◌, ◌↔◌, inl, inr, List, [], ◌∷◌, ◌++◌}
use ezwebsocket.Prelude.{IsBytes, All, ltb, Bool-cases, length, length-append, All-append_right}
use ezwebsocket.Utf8.{Utf8State, ok, busy, utf8_validate_single, validate_loop, utf8_validate}
use ezwebsocket.Utf8.Scalar.{IsScalar, encode_char, encode, IsUtf8}
use ezwebsocket.Utf8.Steps.{
  pending, lead_one, lead_two, lead_three, lead_four, continuation, shift_in_last,
  shift_in_second_last, shift_in_third_last, judge_pending, judge_last, least,
}
use ezwebsocket.Utf8.Sequence.{IsContinuation, loop_goes_on}
use ezwebsocket.Utf8.Split.{Splits, split_first}

-- Forwards: the continuation bytes of a scalar value pass.
pass_last :
    (state : Utf8State) (kind q c : ℕ) (rest : List ℕ)
    → 0 < kind
    → kind < 4
    → q < 2 ^ 16
    → IsContinuation c
    → least kind ≤ q * 64 + c % 64
    → IsScalar (q * 64 + c % 64)
    → validate_loop state (c ∷ rest) (pending 1 kind (q * 64)) ≡ validate_loop ok rest 0
pass_last state kind q c rest some_kind hk hq cont long scalar =
    loop_goes_on state ok c (pending 1 kind (q * 64)) 0 rest step (λ e. cc)
  where
    step : utf8_validate_single c (pending 1 kind (q * 64)) ≡ (ok, 0)
    step = ground (
      arith,
      continuation c (pending 1 kind (q * 64)),
      shift_in_last c kind q,
      judge_last kind (q * 64 + c % 64),
    )

pass_second_last :
    (state : Utf8State) (kind q c : ℕ) (rest : List ℕ)
    → 0 < kind
    → kind < 4
    → q < 2 ^ 10
    → IsContinuation c
    → (q * 64 + c % 64) * 64 ≤ 0x10FFFF
    → validate_loop state (c ∷ rest) (pending 2 kind (q * 4096))
      ≡ validate_loop busy rest (pending 1 kind ((q * 64 + c % 64) * 64))
pass_second_last state kind q c rest some_kind hk hq cont range =
    loop_goes_on state busy c (pending 2 kind (q * 4096)) _ rest step (λ e. cc)
  where
    step :
        utf8_validate_single c (pending 2 kind (q * 4096))
        ≡ (busy, pending 1 kind ((q * 64 + c % 64) * 64))
    step = ground (
      arith,
      continuation c (pending 2 kind (q * 4096)),
      shift_in_second_last c kind q,
      judge_pending 1 kind ((q * 64 + c % 64) * 64),
    )

pass_third_last :
    (state : Utf8State) (kind q c : ℕ) (rest : List ℕ)
    → 0 < kind
    → kind < 4
    → q < 2 ^ 4
    → IsContinuation c
    → (q * 64 + c % 64) * 4096 ≤ 0x10FFFF
    → validate_loop state (c ∷ rest) (pending 3 kind (q * 262144))
      ≡ validate_loop busy rest (pending 2 kind ((q * 64 + c % 64) * 4096))
pass_third_last state kind q c rest some_kind hk hq cont range =
    loop_goes_on state busy c (pending 3 kind (q * 262144)) _ rest step (λ e. cc)
  where
    step :
        utf8_validate_single c (pending 3 kind (q * 262144))
        ≡ (busy, pending 2 kind ((q * 64 + c % 64) * 4096))
    step = ground (
      arith,
      continuation c (pending 3 kind (q * 262144)),
      shift_in_third_last c kind q,
      judge_pending 2 kind ((q * 64 + c % 64) * 4096),
    )

pass_two :
    (c : ℕ) (rest : List ℕ)
    → 0x80 ≤ c
    → c < 0x800
    → validate_loop ok ((0xC0 + c / 64) ∷ (0x80 + c % 64) ∷ rest) 0 ≡ validate_loop ok rest 0
pass_two c rest lo hi =
    loop_goes_on ok busy (0xC0 + c / 64) 0 (pending 1 1 (c / 64 * 64)) ((0x80 + c % 64) ∷ rest)
      (ground (arith, lead_two (0xC0 + c / 64))) (λ e. cc)
    ∙ pass_last busy 1 (c / 64) (0x80 + c % 64) rest (omega arith) (omega arith) (omega arith)
        (omega arith) (omega arith) (inl (omega arith))

pass_three :
    (c : ℕ) (rest : List ℕ)
    → 0x800 ≤ c
    → c < 0x10000
    → IsScalar c
    → validate_loop ok ((0xE0 + c / 4096) ∷ (0x80 + c / 64 % 64) ∷ (0x80 + c % 64) ∷ rest) 0
      ≡ validate_loop ok rest 0
pass_three c rest lo hi scalar =
    loop_goes_on ok busy (0xE0 + c / 4096) 0 (pending 2 2 (c / 4096 * 4096))
      ((0x80 + c / 64 % 64) ∷ (0x80 + c % 64) ∷ rest) (ground (arith, lead_three (0xE0 + c / 4096)))
      (λ e. cc)
    ∙ pass_second_last busy 2 (c / 4096) (0x80 + c / 64 % 64) ((0x80 + c % 64) ∷ rest) (omega arith)
        (omega arith) (omega arith) (omega arith) (omega arith)
    ∙ pass_last busy 2 (c / 4096 * 64 + (0x80 + c / 64 % 64) % 64) (0x80 + c % 64) rest
        (omega arith) (omega arith) (omega arith) (omega arith) (omega arith) (ground arith)

pass_four :
    (c : ℕ) (rest : List ℕ)
    → 0x10000 ≤ c
    → c ≤ 0x10FFFF
    → validate_loop ok
        ((0xF0 + c / 262144)
          ∷ (0x80 + c / 4096 % 64)
          ∷ (0x80 + c / 64 % 64)
          ∷ (0x80 + c % 64)
          ∷ rest)
        0
      ≡ validate_loop ok rest 0
pass_four c rest lo hi =
    let tail2 : List ℕ = (0x80 + c % 64) ∷ rest in
    let tail1 : List ℕ = (0x80 + c / 64 % 64) ∷ tail2 in
    let high : ℕ = c / 262144 * 64 + (0x80 + c / 4096 % 64) % 64 in
    let higher : ℕ = high * 64 + (0x80 + c / 64 % 64) % 64 in
    loop_goes_on ok busy (0xF0 + c / 262144) 0 (pending 3 3 (c / 262144 * 262144))
      ((0x80 + c / 4096 % 64) ∷ tail1) (ground (arith, lead_four (0xF0 + c / 262144))) (λ e. cc)
    ∙ pass_third_last busy 3 (c / 262144) (0x80 + c / 4096 % 64) tail1 (omega arith) (omega arith)
        (omega arith) (omega arith) (omega arith)
    ∙ pass_second_last busy 3 high (0x80 + c / 64 % 64) tail2 (omega arith) (omega arith)
        (omega arith) (omega arith) (omega arith)
    ∙ pass_last busy 3 higher (0x80 + c % 64) rest (omega arith) (omega arith) (omega arith)
        (omega arith) (omega arith) (inr (omega arith, omega arith))

-- The bytes of one scalar value leave the validator where it started.
pub encode_char_passes :
    (c : ℕ) (rest : List ℕ)
    → IsScalar c
    → validate_loop ok (encode_char c ++ rest) 0 ≡ validate_loop ok rest 0
encode_char_passes c rest scalar = elim (Bool-cases (ltb c 0x80)) [
  | inl one ↦ rw one (loop_goes_on ok ok c 0 0 rest (lead_one c (ground arith)) (λ e. cc))
  | inr more ↦ elim (Bool-cases (ltb c 0x800)) [
    | inl two ↦ rw (more, two) (pass_two c rest (ground arith) (ground arith))
    | inr longer ↦ elim (Bool-cases (ltb c 0x10000)) [
      | inl three ↦
          rw (more, longer, three) (pass_three c rest (ground arith) (ground arith) scalar)
      | inr four ↦ rw (more, longer, four) (pass_four c rest (ground arith) (ground arith))
    ]
  ]
]

encode_passes : (text : List ℕ) → All IsScalar text → validate_loop ok (encode text) 0 ≡ (ok, 0)
unfolding validate_loop
encode_passes [] h = refl
encode_passes (c ∷ text) h = encode_char_passes c (encode text) h.0 ∙ encode_passes text h.1

encode_char_some : (c : ℕ) → 0 < length (encode_char c)
encode_char_some c = ground arith

accepted-IsUtf8 :
    (fuel : ℕ) (bytes : List ℕ)
    → length bytes ≤ fuel
    → IsBytes bytes
    → (validate_loop ok bytes 0).0 ≡ ok
    → IsUtf8 bytes
accepted-IsUtf8 fuel [] small hb h = record { text = []; scalars = tt; spelled = refl }
accepted-IsUtf8 zero (c ∷ rest) small hb h = absurd (omega arith)
accepted-IsUtf8 (suc fuel) (c ∷ rest) small hb h =
    let first : Splits (c ∷ rest) = split_first c rest hb h in
    let shorter : length first.others ≤ fuel = omega (
      arith,
      ap length first.spelled,
      length-append (encode_char first.char) first.others,
      encode_char_some first.char,
    ) in
    let others : IsUtf8 first.others =
      accepted-IsUtf8 fuel first.others shorter
        (All-append_right (λ x. x < 256) (encode_char first.char) first.others
          (subst IsBytes first.spelled hb))
        first.accepted in
    record {
      text = first.char ∷ others.text;
      scalars = (first.scalar, others.scalars);
      spelled = first.spelled ∙ ap (◌++◌ (encode_char first.char)) others.spelled;
    }

-- `utf8_validate`, started with the handle 0, answers OK exactly on the byte strings that encode a
-- sequence of Unicode scalar values in the shortest form.
pub utf8_validate_iff :
    (string : List ℕ) → IsBytes string → ((utf8_validate string 0).0 ≡ ok) ↔ IsUtf8 string
unfolding utf8_validate
utf8_validate_iff string hb = (
  accepted-IsUtf8 (length string) string (omega arith) hb,
  λ u. rw (u.spelled, encode_passes u.text u.scalars),
)
