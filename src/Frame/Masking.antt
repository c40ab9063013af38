-- ===== src/Frame/Masking.antt =====
-- Masking and unmasking of payloads: `copyMasked` against the loops of the message handlers.
use ezwebsocket.Prelude.{ℕ, zero, suc, ◌+◌, ◌/◌, ◌%◌, ◌^◌, ◌≤◌, ◌<◌, bit_xor, arith}
use ezwebsocket.Prelude.{
  ◌≡◌, refl, sym, ap, ◌∙◌, List, [], ◌∷◌, ◌++◌, append_assoc, append-nil, some, none,
}
use ezwebsocket.Prelude.{Option, Bool, true, false}
use ezwebsocket.Prelude.{length, length-append, get_elem?, get_elem?-append, get_elem?-All, IsBytes}
use ezwebsocket.Prelude.{get_elem?-none, Option-cases, inl, inr}
use ezwebsocket.Prelude.Bits.{bit_xor_cancel, bit_and_low}
use ezwebsocket.Frame.{
  byte_mask, mask_at, copy_from, copy_masked, unmask_from, copy_bytes, read_payload, WsHeader,
}

pub mask_at-lt : (mask : List ℕ) (i : ℕ) → IsBytes mask → mask_at mask i < 256
mask_at-lt [] i h = omega arith
mask_at-lt (byte ∷ mask) zero h = h.0
mask_at-lt (byte ∷ mask) (suc i) h = mask_at-lt mask i h.1

pub byte_mask-IsBytes : (mask : ℕ) → IsBytes (byte_mask mask)
unfolding byte_mask
byte_mask-IsBytes mask = omega (
  arith,
  bit_and_low 8 (mask / 2 ^ 24),
  bit_and_low 8 (mask / 2 ^ 16),
  bit_and_low 8 (mask / 2 ^ 8),
  bit_and_low 8 (mask / 2 ^ 0),
)

pub length-copy_from :
    (mask : List ℕ) (k : ℕ) (xs : List ℕ) → length (copy_from mask k xs) ≡ length xs
unfolding copy_from
length-copy_from mask k [] = refl
length-copy_from mask k (x ∷ xs) = ap suc (length-copy_from mask ((k + 1) % 4) xs)

pub length-copy_masked : (mask : ℕ) (xs : List ℕ) → length (copy_masked mask xs) ≡ length xs
unfolding copy_masked
length-copy_masked mask xs = length-copy_from (byte_mask mask) 0 xs

-- `^` with one mask byte twice is the identity on bytes.
xor_byte : (x m : ℕ) → x < 256 → m < 256 → bit_xor (bit_xor x m) m ≡ x
xor_byte x m hx hm = (bit_xor_cancel 8 x m hx hm).1

-- The unmasking loop, started anywhere in a payload that `copyMasked` masked.
unmask_from-copy_from :
    (mask xs bytes before after : List ℕ) (offset i k : ℕ)
    → IsBytes mask
    → IsBytes xs
    → k ≡ i % 4
    → offset + i ≡ length before
    → bytes ≡ before ++ (copy_from mask k xs ++ after)
    → unmask_from bytes mask offset (length xs) i ≡ some xs
unfolding unmask_from copy_from
unmask_from-copy_from mask [] bytes before after offset i k hm hx turn place whole = refl
unmask_from-copy_from mask (x ∷ xs) bytes before after offset i k hm hx turn place whole =
    let m : ℕ = mask_at mask k in
    let sent : ℕ = bit_xor x m in
    let tail : List ℕ = copy_from mask ((k + 1) % 4) xs ++ after in
    let here : get_elem? bytes (offset + i) ≡ some sent =
      rw whole (get_elem?-append before (sent ∷ tail) (offset + i) 0 (omega arith)) in
    let next : unmask_from bytes mask offset (length xs) (i + 1) ≡ some xs =
      unmask_from-copy_from mask xs bytes (before ++ (sent ∷ [])) after offset (i + 1) ((k + 1) % 4)
        hm hx.1 (omega arith) (omega (arith, length-append before (sent ∷ [])))
        (whole ∙ sym (append_assoc before (sent ∷ []) tail)) in
    rw (here, next, ← turn)
      (ap (λ (y : ℕ). some (y ∷ xs)) (xor_byte x m hx.0 (mask_at-lt mask k hm)))

copy_bytes_lem :
    (xs bytes before after : List ℕ) (offset : ℕ)
    → offset ≡ length before
    → bytes ≡ before ++ (xs ++ after)
    → copy_bytes bytes offset (length xs) ≡ some xs
unfolding copy_bytes
copy_bytes_lem [] bytes before after offset place whole = refl
copy_bytes_lem (x ∷ xs) bytes before after offset place whole =
    let here : get_elem? bytes offset ≡ some x =
      rw whole (get_elem?-append before (x ∷ (xs ++ after)) offset 0 (omega arith)) in
    let next : copy_bytes bytes (offset + 1) (length xs) ≡ some xs =
      copy_bytes_lem xs bytes (before ++ (x ∷ [])) after (offset + 1)
        (omega (arith, length-append before (x ∷ [])))
        (whole ∙ sym (append_assoc before (x ∷ []) (xs ++ after))) in
    rw (here, next)

-- A copy of a whole buffer.
pub copy_bytes_whole : (xs : List ℕ) (n : ℕ) → n ≡ length xs → copy_bytes xs 0 n ≡ some xs
copy_bytes_whole xs n e = rw e (copy_bytes_lem xs xs [] [] 0 refl (sym (append-nil xs)))

-- A payload of bytes masked by `copyMasked` is what the handlers read back out of the receive
-- buffer, under a header that is masked with the same mask and whose offset and length are those of
-- the payload.
pub read_payload-copy_masked :
    (header : WsHeader) (mask : ℕ) (before xs after : List ℕ)
    → IsBytes xs
    → header.masked ≡ true
    → header.mask ≡ byte_mask mask
    → header.payload_start_offset ≡ length before
    → header.payload_length ≡ length xs
    → read_payload (before ++ (copy_masked mask xs ++ after)) header ≡ some xs
unfolding read_payload copy_masked
read_payload-copy_masked header mask before xs after hx is_masked same_mask place size =
    rw (is_masked, same_mask, place, size)
      (unmask_from-copy_from (byte_mask mask) xs _ before after (length before) 0 0
        (byte_mask-IsBytes mask) hx (omega arith) (omega arith) refl)

-- A payload that is not masked.
pub read_payload_plain :
    (header : WsHeader) (before xs after : List ℕ)
    → header.masked ≡ false
    → header.payload_start_offset ≡ length before
    → header.payload_length ≡ length xs
    → read_payload (before ++ (xs ++ after)) header ≡ some xs
unfolding read_payload
read_payload_plain header before xs after plain place size =
    rw (plain, place, size) (copy_bytes_lem xs _ before after (length before) refl refl)

-- How long the result is, and that it is made of bytes.
IsPayload : ℕ → Option (List ℕ) → Type 0
IsPayload n out = (xs : List ℕ) × (out ≡ some xs) × (length xs ≡ n) × IsBytes xs

unmask_from-IsPayload :
    (bytes mask : List ℕ) (offset rounds i : ℕ)
    → IsBytes bytes
    → IsBytes mask
    → offset + i + rounds ≤ length bytes
    → IsPayload rounds (unmask_from bytes mask offset rounds i)
unfolding unmask_from IsPayload
unmask_from-IsPayload bytes mask offset zero i hb hm fits = ([], refl, refl, tt)
unmask_from-IsPayload bytes mask offset (suc rounds) i hb hm fits =
    let (x, here, x_lt) = get_elem?-All (λ x. x < 256) bytes (offset + i) hb (omega arith) in
    let (xs, rest, size, xs_bytes) =
      unmask_from-IsPayload bytes mask offset rounds (i + 1) hb hm (omega arith) in
    let m = mask_at mask (i % 4) in
    (
      bit_xor x m ∷ xs,
      rw (here, rest),
      ap suc size,
      ((bit_xor_cancel 8 x m x_lt (mask_at-lt mask (i % 4) hm)).0, xs_bytes),
    )

copy_bytes-IsPayload :
    (bytes : List ℕ) (offset count : ℕ)
    → IsBytes bytes
    → offset + count ≤ length bytes
    → IsPayload count (copy_bytes bytes offset count)
unfolding copy_bytes IsPayload
copy_bytes-IsPayload bytes offset zero hb fits = ([], refl, refl, tt)
copy_bytes-IsPayload bytes offset (suc count) hb fits =
    let (x, here, x_lt) = get_elem?-All (λ x. x < 256) bytes offset hb (omega arith) in
    let (xs, rest, size, xs_bytes) =
      copy_bytes-IsPayload bytes (offset + 1) count hb (omega arith) in
    (x ∷ xs, rw (here, rest), ap suc size, (x_lt, xs_bytes))

pub copy_bytes-inside :
    (bytes : List ℕ) (offset count : ℕ)
    → IsBytes bytes
    → offset + count ≤ length bytes
    → (xs : List ℕ) × (copy_bytes bytes offset count ≡ some xs) × (length xs ≡ count) × IsBytes xs
unfolding IsPayload
copy_bytes-inside bytes offset count hb fits = copy_bytes-IsPayload bytes offset count hb fits

-- A payload that lies inside the receive buffer is read without a fault, whole.
pub read_payload-inside :
    (bytes : List ℕ) (header : WsHeader)
    → IsBytes bytes
    → IsBytes header.mask
    → header.payload_start_offset + header.payload_length ≤ length bytes
    → (xs : List ℕ) × (read_payload bytes header ≡ some xs)
      × (length xs ≡ header.payload_length)
      × IsBytes xs
unfolding read_payload IsPayload
read_payload-inside bytes header hb hm fits = by_mask header.masked refl
  where
    by_mask :
        (b : Bool) → header.masked ≡ b → IsPayload header.payload_length (read_payload bytes header)
    by_mask true e = rw e (
        unmask_from-IsPayload bytes header.mask header.payload_start_offset header.payload_length 0
          hb hm (omega arith))
    by_mask false e = rw e (
        copy_bytes-IsPayload bytes header.payload_start_offset header.payload_length hb
          (omega arith))

-- A payload that ends outside the buffer is a read out of range, whatever the mask.
unmask_from_outside :
    (bytes mask : List ℕ) (offset rounds i : ℕ)
    → length bytes < offset + i + rounds
    → 0 < rounds
    → unmask_from bytes mask offset rounds i ≡ none
unfolding unmask_from
unmask_from_outside bytes mask offset zero i out some_left = absurd (omega arith)
unmask_from_outside bytes mask offset (suc zero) i out some_left =
    rw (get_elem?-none bytes (offset + i) (omega arith))
unmask_from_outside bytes mask offset (suc (suc rounds)) i out some_left =
    elim (Option-cases (get_elem? bytes (offset + i))) [
      | inl e ↦ rw e
      | inr (x, e) ↦ rw (
        e,
        unmask_from_outside bytes mask offset (suc rounds) (i + 1) (omega arith) (omega arith),
      )
    ]

copy_bytes_outside :
    (bytes : List ℕ) (offset count : ℕ)
    → length bytes < offset + count
    → 0 < count
    → copy_bytes bytes offset count ≡ none
unfolding copy_bytes
copy_bytes_outside bytes offset zero out some_left = absurd (omega arith)
copy_bytes_outside bytes offset (suc zero) out some_left =
    rw (get_elem?-none bytes offset (omega arith))
copy_bytes_outside bytes offset (suc (suc count)) out some_left =
    elim (Option-cases (get_elem? bytes offset)) [
      | inl e ↦ rw e
      | inr (x, e) ↦
          rw (e, copy_bytes_outside bytes (offset + 1) (suc count) (omega arith) (omega arith))
    ]

pub read_payload_outside :
    (bytes : List ℕ) (header : WsHeader)
    → length bytes < header.payload_start_offset + header.payload_length
    → 0 < header.payload_length
    → read_payload bytes header ≡ none
unfolding read_payload
read_payload_outside bytes header out some_left = ground (
  arith,
  unmask_from_outside bytes header.mask header.payload_start_offset header.payload_length 0,
  copy_bytes_outside bytes header.payload_start_offset header.payload_length,
)
