-- ===== src/Base/Bits.antt =====
-- `&`, `|` and `^` as arithmetic, at variables.
use Prim.Native.Nat.{
  ℕ, zero, suc, ◌+◌, ◌-◌, ◌*◌, ◌/◌, ◌%◌, ◌^◌, ◌≤◌, ◌<◌, min, max, bit_and, bit_or, digits,
  bit_and-bitwise, bit_or-bitwise,
}
use mathlib.Core.Path.{◌≡◌, refl}
use native.Mathlib.Nat.{pow-suc, one-le-pow}
use native.Mathlib.Omega.{arith}

-- One number of binary digits to go is as good as another, if it is enough.
module _ (other : ℕ → ℕ) (op : ℕ → ℕ → ℕ) where
  pub digits_enough :
      (x y : ℕ) (i j : ℕ) → x ≤ j → x ≤ i → digits other op i x y ≡ digits other op j x y
  digits_enough (suc x) y (suc i) (suc j) hj hi =
      rw (digits_enough (suc x / 2) (y / 2) i j (omega arith) (omega arith))
  digits_enough (suc x) y zero j hj hi = absurd (omega arith)
  digits_enough (suc x) y (suc i) zero hj hi = absurd (omega arith)
  digits_enough zero y (suc i) (suc j) hj hi = refl
  digits_enough zero y (suc i) zero hj hi = refl
  digits_enough zero y zero (suc j) hj hi = refl
  digits_enough zero y zero zero hj hi = refl

bit_or-halves : (x y : ℕ) → max (x % 2) (y % 2) + 2 * bit_or (x / 2) (y / 2) ≡ bit_or x y
bit_or-halves zero y = omega (arith, bit_or-bitwise 0 (y / 2), bit_or-bitwise 0 y)
bit_or-halves (suc x) y = omega (
  arith,
  digits_enough (λ y. y) max (suc x / 2) (y / 2) x (suc x / 2) (omega arith) (omega arith),
  bit_or-bitwise (suc x / 2) (y / 2),
  bit_or-bitwise (suc x) y,
)

bit_and-halves : (x y : ℕ) → min (x % 2) (y % 2) + 2 * bit_and (x / 2) (y / 2) ≡ bit_and x y
bit_and-halves zero y = omega (arith, bit_and-bitwise 0 (y / 2), bit_and-bitwise 0 y)
bit_and-halves (suc x) y = omega (
  arith,
  digits_enough (λ y. 0) min (suc x / 2) (y / 2) x (suc x / 2) (omega arith) (omega arith),
  bit_and-bitwise (suc x / 2) (y / 2),
  bit_and-bitwise (suc x) y,
)

bit_or-zero_upto : (n a : ℕ) → a ≤ n → bit_or a 0 ≡ a
bit_or-zero_upto n zero h = refl
bit_or-zero_upto zero (suc a) h = absurd (omega arith)
bit_or-zero_upto (suc n) (suc a) h =
    omega (arith, bit_or-halves (suc a) 0, bit_or-zero_upto n (suc a / 2) (omega arith))

bit_and-zero_upto : (n a : ℕ) → a ≤ n → bit_and a 0 ≡ 0
bit_and-zero_upto n zero h = refl
bit_and-zero_upto zero (suc a) h = absurd (omega arith)
bit_and-zero_upto (suc n) (suc a) h =
    omega (arith, bit_and-halves (suc a) 0, bit_and-zero_upto n (suc a / 2) (omega arith))

-- `(q << k) | r` is a sum where `r` fits `k` bits.
pub bit_or_sum : (k q r : ℕ) → r < 2 ^ k → bit_or (q * 2 ^ k) r ≡ q * 2 ^ k + r
bit_or_sum zero q r h = ground (arith, bit_or-zero_upto q q)
bit_or_sum (suc k) q r h = ground (
  arith,
  bit_or-halves (q * 2 ^ suc k) r,
  pow-suc 2 k,
  doubled,
  bit_or_sum k q (r / 2) (omega (arith, pow-suc 2 k)),
)
  where
    doubled : q * 2 ^ suc k ≡ 2 * (q * 2 ^ k)
    doubled = rw (pow-suc 2 k) (omega arith)

-- A mask of `k` low bits is the remainder by `2 ^ k`.
bit_and_low : (k q r : ℕ) → r < 2 ^ k → bit_and (q * 2 ^ k + r) (2 ^ k - 1) ≡ r
bit_and_low zero q r h = ground (arith, bit_and-zero_upto (q * 1 + r) (q * 1 + r))
bit_and_low (suc k) q r h = ground (
  arith,
  bit_and-halves (q * 2 ^ suc k + r) (2 ^ suc k - 1),
  pow-suc 2 k,
  one-le-pow k 2,
  doubled,
  bit_and_low k q (r / 2) (omega (arith, pow-suc 2 k)),
)
  where
    doubled : q * 2 ^ suc k ≡ 2 * (q * 2 ^ k)
    doubled = rw (pow-suc 2 k) (omega arith)

pub bit_and_mask : (k a : ℕ) → bit_and a (2 ^ k - 1) ≡ a % 2 ^ k
bit_and_mask k a = ground (arith, one-le-pow k 2, bit_and_low k (a / 2 ^ k) (a % 2 ^ k))

-- The byte that `(v >> s) & 0xff` selects.
pub bit_and_byte : (a : ℕ) → bit_and a 0xff ≡ a % 256
bit_and_byte a = bit_and_mask 8 a

-- `x & ~15` on 64 bits clears the four low bits.
pub bit_and_align : (a : ℕ) → a < 2 ^ 64 → bit_and a (2 ^ 64 - 16) ≡ a / 16 * 16
bit_and_align a h = omega (
  arith,
  bit_and-halves a (2 ^ 64 - 16),
  bit_and-halves (a / 2) (2 ^ 63 - 8),
  bit_and-halves (a / 2 / 2) (2 ^ 62 - 4),
  bit_and-halves (a / 2 / 2 / 2) (2 ^ 61 - 2),
  bit_and_mask 60 (a / 2 / 2 / 2 / 2),
)
