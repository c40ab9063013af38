-- ===== src/Utf8/Split.antt =====
-- Accepted strings, one character at a time.
use ezwebsocket.Prelude.{ℕ, ◌+◌, ◌*◌, ◌%◌, ◌≤◌, ◌<◌, arith}
use ezwebsocket.Prelude.{◌≡◌, inl, inr, List, [], ◌∷◌, ◌++◌}
use ezwebsocket.Prelude.{IsBytes}
use native.Mathlib.Decide.{dec_lt}
use ezwebsocket.Utf8.{ok, busy, utf8_validate_single, validate_loop}
use ezwebsocket.Utf8.Scalar.{IsScalar, encode_char}
use ezwebsocket.Utf8.Steps.{lead_one, lead_two, lead_three, lead_four, lead_none}
use ezwebsocket.Utf8.Sequence.{
  loop_goes_on, loop_stops, last_byte, second_last_byte, third_last_byte,
}

-- The first character of an accepted string, split off.
pub record Splits (bytes : List ℕ) : Type 0 where
  pub char : ℕ
  pub others : List ℕ
  pub scalar : IsScalar char
  pub spelled : bytes ≡ encode_char char ++ others
  pub accepted : (validate_loop ok others 0).0 ≡ ok

split_two :
    (c0 c1 : ℕ) (rest : List ℕ)
    → 0xC0 ≤ c0
    → c0 < 0xE0
    → c1 < 0x100
    → (validate_loop ok (c0 ∷ c1 ∷ rest) 0).0 ≡ ok
    → Splits (c0 ∷ c1 ∷ rest)
split_two c0 c1 rest lo hi byte h =
    let after0 = rw (loop_goes_on ok busy c0 0 _ (c1 ∷ rest) (lead_two c0 lo hi) (λ e. cc)) at h in
    let (cont, scalar, long, accepted) =
      last_byte busy 1 (c0 % 32) c1 rest (omega arith) (omega arith) (omega arith) byte after0 in
    record {
      char = c0 % 32 * 64 + c1 % 64;
      others = rest;
      scalar = scalar;
      spelled = ground arith;
      accepted = accepted;
    }

split_three :
    (c0 c1 c2 : ℕ) (rest : List ℕ)
    → 0xE0 ≤ c0
    → c0 < 0xF0
    → c1 < 0x100
    → c2 < 0x100
    → (validate_loop ok (c0 ∷ c1 ∷ c2 ∷ rest) 0).0 ≡ ok
    → Splits (c0 ∷ c1 ∷ c2 ∷ rest)
split_three c0 c1 c2 rest lo hi byte1 byte2 h =
    let after0 =
      rw (loop_goes_on ok busy c0 0 _ (c1 ∷ c2 ∷ rest) (lead_three c0 lo hi) (λ e. cc)) at h in
    let (cont1, after1) =
      second_last_byte busy 2 (c0 % 16) c1 (c2 ∷ rest) (omega arith) (omega arith) (omega arith)
        byte1 after0 in
    let (cont2, scalar, long, accepted) =
      last_byte busy 2 (c0 % 16 * 64 + c1 % 64) c2 rest (omega arith) (omega arith) (omega arith)
        byte2 after1 in
    record {
      char = (c0 % 16 * 64 + c1 % 64) * 64 + c2 % 64;
      others = rest;
      scalar = scalar;
      spelled = ground arith;
      accepted = accepted;
    }

split_four :
    (c0 c1 c2 c3 : ℕ) (rest : List ℕ)
    → 0xF0 ≤ c0
    → c0 < 0xF5
    → c1 < 0x100
    → c2 < 0x100
    → c3 < 0x100
    → (validate_loop ok (c0 ∷ c1 ∷ c2 ∷ c3 ∷ rest) 0).0 ≡ ok
    → Splits (c0 ∷ c1 ∷ c2 ∷ c3 ∷ rest)
split_four c0 c1 c2 c3 rest lo hi byte1 byte2 byte3 h =
    let after0 =
      rw (loop_goes_on ok busy c0 0 _ (c1 ∷ c2 ∷ c3 ∷ rest) (lead_four c0 lo hi) (λ e. cc)) at h in
    let (cont1, after1, range) =
      third_last_byte busy 3 (c0 % 8) c1 (c2 ∷ c3 ∷ rest) (omega arith) (omega arith) (omega arith)
        byte1 after0 in
    let (cont2, after2) =
      second_last_byte busy 3 (c0 % 8 * 64 + c1 % 64) c2 (c3 ∷ rest) (omega arith) (omega arith)
        (omega arith) byte2 after1 in
    let (cont3, scalar, long, accepted) =
      last_byte busy 3 ((c0 % 8 * 64 + c1 % 64) * 64 + c2 % 64) c3 rest (omega arith) (omega arith)
        (omega arith) byte3 after2 in
    record {
      char = ((c0 % 8 * 64 + c1 % 64) * 64 + c2 % 64) * 64 + c3 % 64;
      others = rest;
      scalar = scalar;
      spelled = ground arith;
      accepted = accepted;
    }

-- A string that ends inside a sequence is not accepted.
ends_early :
    (c handle : ℕ)
    → utf8_validate_single c 0 ≡ (busy, handle)
    → (validate_loop ok (c ∷ []) 0).0 ≡ ok
    → ⊥
unfolding validate_loop
ends_early c handle step h = ground arith

start_two :
    (c : ℕ) (rest : List ℕ)
    → 0xC0 ≤ c
    → c < 0xE0
    → IsBytes rest
    → (validate_loop ok (c ∷ rest) 0).0 ≡ ok
    → Splits (c ∷ rest)
start_two c [] lo hi bytes h = absurd (ends_early c _ (lead_two c lo hi) h)
start_two c (c1 ∷ rest) lo hi bytes h = split_two c c1 rest lo hi bytes.0 h

start_three :
    (c : ℕ) (rest : List ℕ)
    → 0xE0 ≤ c
    → c < 0xF0
    → IsBytes rest
    → (validate_loop ok (c ∷ rest) 0).0 ≡ ok
    → Splits (c ∷ rest)
start_three c [] lo hi bytes h = absurd (ends_early c _ (lead_three c lo hi) h)
start_three c (c1 ∷ []) lo hi bytes h =
    let after0 = rw (loop_goes_on ok busy c 0 _ (c1 ∷ []) (lead_three c lo hi) (λ e. cc)) at h in
    let (cont1, after1) =
      second_last_byte busy 2 (c % 16) c1 [] (omega arith) (omega arith) (omega arith) bytes.0
        after0 in
    unfold validate_loop in absurd (cc after1)
start_three c (c1 ∷ c2 ∷ rest) lo hi bytes h = split_three c c1 c2 rest lo hi bytes.0 bytes.1.0 h

start_four :
    (c : ℕ) (rest : List ℕ)
    → 0xF0 ≤ c
    → c < 0xF5
    → IsBytes rest
    → (validate_loop ok (c ∷ rest) 0).0 ≡ ok
    → Splits (c ∷ rest)
start_four c [] lo hi bytes h = absurd (ends_early c _ (lead_four c lo hi) h)
start_four c (c1 ∷ []) lo hi bytes h =
    let after0 = rw (loop_goes_on ok busy c 0 _ (c1 ∷ []) (lead_four c lo hi) (λ e. cc)) at h in
    let (cont1, after1, range) =
      third_last_byte busy 3 (c % 8) c1 [] (omega arith) (omega arith) (omega arith) bytes.0
        after0 in
    unfold validate_loop in absurd (cc after1)
start_four c (c1 ∷ c2 ∷ []) lo hi bytes h =
    let after0 =
      rw (loop_goes_on ok busy c 0 _ (c1 ∷ c2 ∷ []) (lead_four c lo hi) (λ e. cc)) at h in
    let (cont1, after1, range) =
      third_last_byte busy 3 (c % 8) c1 (c2 ∷ []) (omega arith) (omega arith) (omega arith) bytes.0
        after0 in
    let (cont2, after2) =
      second_last_byte busy 3 (c % 8 * 64 + c1 % 64) c2 [] (omega arith) (omega arith) (omega arith)
        bytes.1.0 after1 in
    unfold validate_loop in absurd (cc after2)
start_four c (c1 ∷ c2 ∷ c3 ∷ rest) lo hi bytes h =
    split_four c c1 c2 c3 rest lo hi bytes.0 bytes.1.0 bytes.1.1.0 h

-- Whatever the first byte is, an accepted string begins with a whole character.
pub split_first :
    (c : ℕ) (rest : List ℕ)
    → IsBytes (c ∷ rest)
    → (validate_loop ok (c ∷ rest) 0).0 ≡ ok
    → Splits (c ∷ rest)
split_first c rest bytes h = elim (dec_lt c 0x80) [
  | yes ascii ↦ record {
    char = c;
    others = rest;
    scalar = inl (omega arith);
    spelled = ground arith;
    accepted = rw (loop_goes_on ok ok c 0 0 rest (lead_one c ascii) (λ e. cc)) at h;
  }
  | no high ↦ elim (dec_lt c 0xC0) [
    | yes mid ↦ absurd (cc (loop_stops ok c 0 rest (lead_none c (inl (omega arith)))))
    | no lead ↦ elim (dec_lt c 0xE0) [
      | yes two ↦ start_two c rest (omega arith) two bytes.1 h
      | no longer ↦ elim (dec_lt c 0xF0) [
        | yes three ↦ start_three c rest (omega arith) three bytes.1 h
        | no longest ↦ elim (dec_lt c 0xF5) [
          | yes four ↦ start_four c rest (omega arith) four bytes.1 h
          | no beyond ↦
              absurd (cc (loop_stops ok c 0 rest (lead_none c (inr (omega arith, bytes.0)))))
        ]
      ]
    ]
  ]
]
