-- ===== src/Base/Bits.antt =====
-- The bit operations on bytes and 16-bit words, as arithmetic.
use Prim.Native.Nat.{ℕ, zero, suc, ◌+◌, ◌*◌, ◌/◌, ◌%◌, ◌<◌, max, bit_or, ◌^◌, bit_or-bitwise}
use mathlib.Core.Path.{◌≡◌, refl, ap, ◌∙◌}
use mathlib.Core.Logic.{◌⊎◌, inl, inr}
use mathlib.Core.Bool.{Bool, true, false, ◌&&◌}
use native.Mathlib.Omega.{arith}
use native.Mathlib.Nat.{pow-suc}
use elke.Base.Digits.{digits-enough}

-- A test that holds of every number below a bound, found by running it on each.
unfoldable pub all_below : ℕ → (ℕ → Bool) → Bool
all_below zero test = true
all_below (suc bound) test = all_below bound test && test bound

last_or_below : (n bound : ℕ) → n < suc bound → (n ≡ bound) ⊎ (n < bound)
last_or_below n bound small = omega arith

both_true : (p q : Bool) → (p && q) ≡ true → (p ≡ true) × (q ≡ true)
both_true true q e = (refl, e)
both_true false q e = cc

pub all_below_lem :
    (bound : ℕ) (test : ℕ → Bool) (n : ℕ) → all_below bound test ≡ true → n < bound → test n ≡ true
unfolding all_below
all_below_lem zero test n table small = absurd (omega arith)
all_below_lem (suc bound) test n table small =
    let (earlier, here) = both_true (all_below bound test) (test bound) table in
    elim (last_or_below n bound small) [
      | inl e ↦ ap test e ∙ here
      | inr lower ↦ all_below_lem bound test n earlier lower
    ]

pub zero-bit_or : (b : ℕ) → bit_or 0 b ≡ b
zero-bit_or b = bit_or-bitwise 0 b

pub bit_or-halves : (x y : ℕ) → bit_or x y ≡ max (x % 2) (y % 2) + bit_or (x / 2) (y / 2) * 2
bit_or-halves zero b = omega (arith, zero-bit_or b, zero-bit_or (b / 2))
bit_or-halves (suc a) b =
    let same =
      digits-enough (λ y. y) max (suc a / 2) (b / 2) a (suc a / 2) (omega arith, omega arith) in
    omega (arith, same, bit_or-bitwise (suc a / 2) (b / 2), bit_or-bitwise (suc a) b)

-- Shifting the second number left by one bit makes room for the first number's lowest bit.
bit_or_double : (lo q : ℕ) → bit_or lo (q * 2) ≡ bit_or (lo / 2) q * 2 + lo % 2
bit_or_double lo q =
    let half : q * 2 / 2 ≡ q = omega arith in
    omega (arith, bit_or-halves lo (q * 2), ap (bit_or (lo / 2)) half)

-- Where the second number has no bit among the low `k`, the digits stand side by side.
pub bit_or-shift : (k lo hi : ℕ) → lo < 2 ^ k → bit_or lo (hi * 2 ^ k) ≡ lo + hi * 2 ^ k
bit_or-shift zero lo hi h = let e : lo ≡ 0 = omega arith in rw e (rw zero-bit_or (omega arith))
bit_or-shift (suc k) lo hi h =
    let e : hi * 2 ^ suc k ≡ hi * 2 ^ k * 2 = rw pow-suc (omega arith) in
    let small : lo / 2 < 2 ^ k = (let p : 2 ^ suc k ≡ 2 ^ k * 2 = pow-suc 2 k in omega arith) in
    rw e (omega (arith, bit_or_double lo (hi * 2 ^ k), bit_or-shift k (lo / 2) hi small))

-- `lo | (hi << 8)` for a byte `lo`.
pub bit_or-byte : (lo hi : ℕ) → lo < 256 → bit_or lo (hi * 256) ≡ lo + hi * 256
bit_or-byte lo hi h = bit_or-shift 8 lo hi h
