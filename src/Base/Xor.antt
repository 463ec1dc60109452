-- ===== src/Base/Xor.antt =====
-- `^` of binary digits: what it has done, it undoes.
use Prim.Native.Nat.{ℕ, zero, suc, ◌+◌, ◌*◌, ◌/◌, ◌%◌, ◌≤◌, ◌<◌, bit_xor, differ, bit_xor-bitwise}
use mathlib.Core.Path.{◌≡◌, refl, ap, ◌∙◌}
use native.Mathlib.Omega.{arith}
use exasol_gateway_sdk.Base.Bits.{digits_enough}

bit_xor-halves : (x y : ℕ) → differ (x % 2) (y % 2) + 2 * bit_xor (x / 2) (y / 2) ≡ bit_xor x y
bit_xor-halves zero y = ground (arith, bit_xor-bitwise 0 (y / 2), bit_xor-bitwise 0 y)
bit_xor-halves (suc x) y = omega (
  arith,
  digits_enough (λ y. y) differ (suc x / 2) (y / 2) x (suc x / 2) (omega arith) (omega arith),
  bit_xor-bitwise (suc x / 2) (y / 2),
  bit_xor-bitwise (suc x) y,
)

differ_twice : (p q : ℕ) → p < 2 → q < 2 → (differ p q < 2) × (differ (differ p q) q ≡ p)
differ_twice zero zero hp hq = omega arith
differ_twice zero (suc zero) hp hq = omega arith
differ_twice (suc zero) zero hp hq = omega arith
differ_twice (suc zero) (suc zero) hp hq = omega arith
differ_twice (suc (suc p)) q hp hq = absurd (omega arith)
differ_twice p (suc (suc q)) hp hq = absurd (omega arith)

bit_xor_halved :
    (a m : ℕ)
    → (bit_xor a m / 2 ≡ bit_xor (a / 2) (m / 2)) × (bit_xor a m % 2 ≡ differ (a % 2) (m % 2))
bit_xor_halved a m =
    omega (arith, bit_xor-halves a m, differ_twice (a % 2) (m % 2) (omega arith) (omega arith))

differ_same : (p : ℕ) → differ p p ≡ 0
differ_same zero = refl
differ_same (suc p) = differ_same p

bit_xor_self_upto : (n m : ℕ) → m ≤ n → bit_xor m m ≡ 0
bit_xor_self_upto n zero h = refl
bit_xor_self_upto zero (suc m) h = absurd (omega arith)
bit_xor_self_upto (suc n) (suc m) h = omega (
  arith,
  bit_xor_halved (suc m) (suc m),
  differ_same (suc m % 2),
  bit_xor_self_upto n (suc m / 2) (omega arith),
)

bit_xor_twice_upto : (n a m : ℕ) → a ≤ n → bit_xor (bit_xor a m) m ≡ a
bit_xor_twice_upto n zero m h =
    ap (λ t. bit_xor t m) (bit_xor-bitwise 0 m) ∙ bit_xor_self_upto m m (omega arith)
bit_xor_twice_upto zero (suc a) m h = absurd (omega arith)
bit_xor_twice_upto (suc n) (suc a) m h =
    let (upper, lower) = bit_xor_halved (suc a) m in
    let below = bit_xor_twice_upto n (suc a / 2) (m / 2) (omega arith) in
    let twice = bit_xor_halved (bit_xor (suc a) m) m in
    omega (
      arith,
      twice,
      ap (λ (t : ℕ). bit_xor t (m / 2)) upper,
      ap (λ (t : ℕ). differ t (m % 2)) lower,
      below,
      differ_twice (suc a % 2) (m % 2) (omega arith) (omega arith),
    )

pub bit_xor_twice : (a m : ℕ) → bit_xor (bit_xor a m) m ≡ a
bit_xor_twice a m = bit_xor_twice_upto a a m (omega arith)
