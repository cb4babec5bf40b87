-- ===== src/Base/Digits.antt =====
-- What the native bit operations stand for: a recursion on binary digits, with a bound on their
-- number. A larger bound makes no difference.
use Prim.Native.Nat.{ℕ, zero, suc, ◌/◌, ◌≤◌, digits}
use mathlib.Core.Path.{◌≡◌, refl}
use native.Mathlib.Omega.{arith}

module _ (last : ℕ → ℕ) (digit : ℕ → ℕ → ℕ) where
  pub digits-enough :
      (x y k l : ℕ) → (x ≤ k) × (x ≤ l) → digits last digit k x y ≡ digits last digit l x y
  digits-enough zero y zero zero _ = refl
  digits-enough zero y zero (suc l) _ = refl
  digits-enough zero y (suc k) zero _ = refl
  digits-enough zero y (suc k) (suc l) _ = refl
  digits-enough (suc x) y zero l enough = absurd (omega (arith, enough.0))
  digits-enough (suc x) y (suc k) zero enough = absurd (omega (arith, enough.1))
  digits-enough (suc x) y (suc k) (suc l) enough =
      let low : suc x / 2 ≤ k = omega (arith, enough.0) in
      let high : suc x / 2 ≤ l = omega (arith, enough.1) in
      rw (digits-enough (suc x / 2) (y / 2) k l (low, high)) refl
