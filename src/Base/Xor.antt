-- ===== src/Base/Xor.antt =====
-- `bit_xor` digit by digit, and its bound.
use Prim.Native.Nat.{
  ℕ, zero, suc, ◌+◌, ◌*◌, ◌/◌, ◌%◌, ◌^◌, ◌≤◌, ◌<◌, bit_xor, differ, bit_xor-bitwise,
}
use mathlib.Core.Path.{◌≡◌}
use native.Mathlib.Omega.{arith}
use native.Mathlib.Nat.{pow-suc}
use elke.Base.Digits.{digits-enough}

pub zero-bit_xor : (b : ℕ) → bit_xor 0 b ≡ b
zero-bit_xor b = bit_xor-bitwise 0 b

differ_zero : (b : ℕ) → b < 2 → differ 0 b ≡ b
differ_zero b h = ground arith

differ_le : (a b : ℕ) → a ≤ 1 → b ≤ 1 → differ a b ≤ 1
differ_le zero b p q = q
differ_le (suc a) zero p q = p
differ_le (suc a) (suc b) p q = differ_le a b (omega arith) (omega arith)

pub bit_xor-halves : (a b : ℕ) → bit_xor a b ≡ bit_xor (a / 2) (b / 2) * 2 + differ (a % 2) (b % 2)
bit_xor-halves zero b =
    omega (arith, zero-bit_xor b, zero-bit_xor (b / 2), differ_zero (b % 2) (omega arith))
bit_xor-halves (suc a) b =
    let same =
      digits-enough (λ y. y) differ (suc a / 2) (b / 2) a (suc a / 2) (omega arith, omega arith) in
    omega (arith, same, bit_xor-bitwise (suc a / 2) (b / 2), bit_xor-bitwise (suc a) b)

-- The exclusive or of two `k`-bit numbers has `k` bits.
pub bit_xor-lt : (k a b : ℕ) → a < 2 ^ k → b < 2 ^ k → bit_xor a b < 2 ^ k
bit_xor-lt zero a b p q = let e : a ≡ 0 = omega arith in rw e (rw zero-bit_xor q)
bit_xor-lt (suc k) a b p q =
    let e : 2 ^ suc k ≡ 2 ^ k * 2 = pow-suc 2 k in
    let half = bit_xor-lt k (a / 2) (b / 2) (omega arith) (omega arith) in
    omega (arith, bit_xor-halves a b, differ_le (a % 2) (b % 2) (omega arith) (omega arith))
