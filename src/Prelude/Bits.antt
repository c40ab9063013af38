-- ===== src/Prelude/Bits.antt =====
-- The bit operations of C at variables: one binary digit at a time, then fields and masks.
use Prim.Native.Nat.{ℕ, zero, suc, ◌+◌, ◌-◌, ◌*◌, ◌/◌, ◌%◌, ◌^◌, ◌≤◌, ◌<◌, min, max, differ}
use Prim.Native.Nat.{bit_and, bit_or, bit_xor, digits, bitwise}
use Prim.Native.Nat.{bit_and-bitwise, bit_or-bitwise, bit_xor-bitwise}
use mathlib.Core.Path.{◌≡◌, refl, ap, ap₂}
use native.Mathlib.Nat.{pow-suc, one-le-pow}
use native.Mathlib.Omega.{arith}

-- The digit recursion runs on fuel; any fuel that covers the first number gives one result.
module _ (base : ℕ → ℕ) (op : ℕ → ℕ → ℕ) where
  enough :
      (fuel more x y : ℕ)
      → x ≤ fuel
      → fuel ≤ more
      → digits base op more x y ≡ digits base op fuel x y
  enough zero zero x y small le = refl
  enough zero (suc more) zero y small le = refl
  enough zero (suc more) (suc x) y small le = absurd (omega arith)
  enough (suc fuel) zero x y small le = absurd (omega arith)
  enough (suc fuel) (suc more) zero y small le = refl
  enough (suc fuel) (suc more) (suc x) y small le =
      ap (λ (high : ℕ). high * 2 + op (suc x % 2) (y % 2))
        (enough fuel more (suc x / 2) (y / 2) (omega arith) (omega arith))

  lowest :
      (x y : ℕ)
      → bitwise base op (suc x) y ≡ bitwise base op (suc x / 2) (y / 2) * 2 + op (suc x % 2) (y % 2)
  lowest x y =
      ap (λ (high : ℕ). high * 2 + op (suc x % 2) (y % 2))
        (enough (suc x / 2) x (suc x / 2) (y / 2) (omega arith) (omega arith))

pub bit_and-lowest : (x y : ℕ) → bit_and x y ≡ bit_and (x / 2) (y / 2) * 2 + min (x % 2) (y % 2)
bit_and-lowest zero y = simp bit_and-bitwise (omega arith)
bit_and-lowest (suc x) y = simp bit_and-bitwise (lowest (λ b. 0) min x y)

pub bit_or-lowest : (x y : ℕ) → bit_or x y ≡ bit_or (x / 2) (y / 2) * 2 + max (x % 2) (y % 2)
bit_or-lowest zero y = simp bit_or-bitwise (omega arith)
bit_or-lowest (suc x) y = simp bit_or-bitwise (lowest (λ b. b) max x y)

pub bit_xor-lowest : (x y : ℕ) → bit_xor x y ≡ bit_xor (x / 2) (y / 2) * 2 + differ (x % 2) (y % 2)
bit_xor-lowest zero y = simp bit_xor-bitwise (omega arith)
bit_xor-lowest (suc x) y = simp bit_xor-bitwise (lowest (λ b. b) differ x y)

differ_self : (d : ℕ) → d < 2 → differ d d ≡ 0
differ_self zero h = refl
differ_self (suc zero) h = refl
differ_self (suc (suc d)) h = absurd (omega arith)

differ_cancel : (c d : ℕ) → c < 2 → d < 2 → (differ c d < 2) × (differ (differ c d) d ≡ c)
differ_cancel zero zero p q = (omega arith, refl)
differ_cancel zero (suc zero) p q = (omega arith, refl)
differ_cancel (suc zero) zero p q = (omega arith, refl)
differ_cancel (suc zero) (suc zero) p q = (omega arith, refl)
differ_cancel zero (suc (suc d)) p q = absurd (omega arith)
differ_cancel (suc zero) (suc (suc d)) p q = absurd (omega arith)
differ_cancel (suc (suc c)) d p q = absurd (omega arith)

pow_suc_lem : (k : ℕ) → 2 ^ suc k ≡ 2 * 2 ^ k
pow_suc_lem k = omega (arith, pow-suc 2 k)

shift_suc : (q k : ℕ) → q * 2 ^ suc k ≡ 2 * (q * 2 ^ k)
shift_suc q k = omega (arith, ap (λ (t : ℕ). q * t) (pow-suc 2 k))

-- A number below `2 ^ k` keeps its width under `^`, and a second `^` undoes the first.
pub bit_xor_cancel :
    (k x m : ℕ) → x < 2 ^ k → m < 2 ^ k → (bit_xor x m < 2 ^ k) × (bit_xor (bit_xor x m) m ≡ x)
bit_xor_cancel zero zero zero hx hm = (omega arith, refl)
bit_xor_cancel zero zero (suc m) hx hm = absurd (omega arith)
bit_xor_cancel zero (suc x) m hx hm = absurd (omega arith)
bit_xor_cancel (suc k) x m hx hm = ground (
  arith,
  pow_suc_lem k,
  bit_xor-lowest x m,
  bit_xor-lowest (bit_xor x m) m,
  differ_cancel (x % 2) (m % 2),
  bit_xor_cancel k (x / 2) (m / 2),
)

bit_or-zero : (fuel x : ℕ) → x ≤ fuel → bit_or x 0 ≡ x
bit_or-zero fuel zero h = refl
bit_or-zero zero (suc x) h = absurd (omega arith)
bit_or-zero (suc fuel) (suc x) h =
    omega (arith, bit_or-lowest (suc x) 0, bit_or-zero fuel (suc x / 2) (omega arith))

bit_and-zero : (fuel x : ℕ) → x ≤ fuel → bit_and x 0 ≡ 0
bit_and-zero fuel zero h = refl
bit_and-zero zero (suc x) h = absurd (omega arith)
bit_and-zero (suc fuel) (suc x) h =
    omega (arith, bit_and-lowest (suc x) 0, bit_and-zero fuel (suc x / 2) (omega arith))

max_comm : (c d : ℕ) → max c d ≡ max d c
max_comm c d = omega arith

pub bit_or_comm : (k x y : ℕ) → x < 2 ^ k → y < 2 ^ k → bit_or x y ≡ bit_or y x
bit_or_comm zero zero zero hx hy = refl
bit_or_comm zero zero (suc y) hx hy = absurd (omega arith)
bit_or_comm zero (suc x) y hx hy = absurd (omega arith)
bit_or_comm (suc k) x y hx hy = ground (
  arith,
  pow_suc_lem k,
  bit_or-lowest x y,
  bit_or-lowest y x,
  max_comm (x % 2) (y % 2),
  bit_or_comm k (x / 2) (y / 2),
)

-- `(q << k) | r` is a sum where `r` has at most `k` bits.
pub bit_or_field : (k q r : ℕ) → r < 2 ^ k → bit_or (q * 2 ^ k) r ≡ q * 2 ^ k + r
bit_or_field zero q zero h = ground (arith, bit_or-zero q q)
bit_or_field zero q (suc r) h = absurd (omega arith)
bit_or_field (suc k) q r h =
    ground (
      arith,
      pow_suc_lem k,
      shift_suc q k,
      bit_or-lowest (q * 2 ^ suc k) r,
      bit_or_field k q (r / 2),
    )

module _ where
  low_of_field : (k q r : ℕ) → r < 2 ^ k → bit_and (q * 2 ^ k + r) (2 ^ k - 1) ≡ r
  low_of_field zero q zero h = bit_and-zero (q * 1 + 0) (q * 1 + 0) (omega arith)
  low_of_field zero q (suc r) h = absurd (omega arith)
  low_of_field (suc k) q r h = ground (
    arith,
    pow_suc_lem k,
    shift_suc q k,
    one-le-pow k 2,
    bit_and-lowest (q * 2 ^ suc k + r) (2 ^ suc k - 1),
    low_of_field k q (r / 2),
  )

  high_of_field :
      (k q r m : ℕ) → r < 2 ^ k → bit_and (q * 2 ^ k + r) (m * 2 ^ k) ≡ bit_and q m * 2 ^ k
  high_of_field zero q zero m h =
      ground (arith, ap (λ (t : ℕ). t * 1) (ap₂ bit_and (split q) (split m)))
    where
      split : (x : ℕ) → x * 1 + 0 ≡ x
      split x = omega arith
  high_of_field zero q (suc r) m h = absurd (omega arith)
  high_of_field (suc k) q r m h = ground (
    arith,
    pow_suc_lem k,
    shift_suc q k,
    shift_suc m k,
    shift_suc (bit_and q m) k,
    bit_and-lowest (q * 2 ^ suc k + r) (m * 2 ^ suc k),
    high_of_field k q (r / 2) m,
  )

-- A mask of the `k` low bits takes the remainder by `2 ^ k`.
pub bit_and_low : (k x : ℕ) → bit_and x (2 ^ k - 1) ≡ x % 2 ^ k
bit_and_low k x = ground (arith, one-le-pow k 2, low_of_field k (x / 2 ^ k) (x % 2 ^ k))

-- A mask that ends in `k` zeros sees only what a shift by `k` leaves.
pub bit_and_high : (k x m : ℕ) → bit_and x (m * 2 ^ k) ≡ bit_and (x / 2 ^ k) m * 2 ^ k
bit_and_high k x m = ground (arith, one-le-pow k 2, high_of_field k (x / 2 ^ k) (x % 2 ^ k) m)
