-- ===== src/Prelude/Tables.antt =====
-- Facts on bytes, checked at all 256 values.
use Prim.Native.Nat.{ℕ, zero, suc, ◌*◌, ◌/◌, ◌%◌, ◌<◌, bit_and, bit_or}
use mathlib.Core.Path.{◌≡◌, refl}
use mathlib.Core.Bool.{Bool, true, ◌&&◌}
use native.Mathlib.Omega.{arith}
use ezwebsocket.Prelude.Tests.{◌==◌, ==_iff}

unfoldable pub all_below : ℕ → (ℕ → Bool) → Bool
all_below zero test = true
all_below (suc n) test = test n && all_below n test

pub below : (n : ℕ) (test : ℕ → Bool) (x : ℕ) → all_below n test ≡ true → x < n → test x ≡ true
unfolding all_below
below zero test x h lt = absurd (omega arith)
below (suc n) test x h lt = ground (arith, below n test x)

-- Two functions that agree on every byte.
pub agree_on_bytes :
    (f g : ℕ → ℕ) → all_below 256 (λ x. f x == g x) ≡ true → (x : ℕ) → x < 256 → f x ≡ g x
agree_on_bytes f g table x h = (==_iff (f x) (g x)).0 (below 256 (λ x. f x == g x) x table h)

-- The bits of a byte that the frame header reads.
pub bit_and-top_bit : (x : ℕ) → x < 256 → bit_and x 0x80 ≡ x / 128 * 128
unfolding all_below
bit_and-top_bit x h = agree_on_bytes (λ x. bit_and x 0x80) (λ x. x / 128 * 128) refl x h

pub bit_and-reserved : (x : ℕ) → x < 256 → bit_and x 0x70 ≡ x / 16 % 8 * 16
unfolding all_below
bit_and-reserved x h = agree_on_bytes (λ x. bit_and x 0x70) (λ x. x / 16 % 8 * 16) refl x h

-- The second byte of a frame header: seven bits of length, and the mask bit above them.
pub second_byte :
    (x : ℕ)
    → x < 128
    → (bit_and x 0x7F ≡ x)
      × (bit_and x 0x80 ≡ 0)
      × (bit_and (bit_or x 0x80) 0x7F ≡ x)
      × (bit_and (bit_or x 0x80) 0x80 ≡ 0x80)
unfolding all_below
second_byte x h = (
  (==_iff _ x).0 (below 128 (λ x. bit_and x 0x7F == x) x refl h),
  (==_iff _ 0).0 (below 128 (λ x. bit_and x 0x80 == 0) x refl h),
  (==_iff _ x).0 (below 128 (λ x. bit_and (bit_or x 0x80) 0x7F == x) x refl h),
  (==_iff _ 0x80).0 (below 128 (λ x. bit_and (bit_or x 0x80) 0x80 == 0x80) x refl h),
)
