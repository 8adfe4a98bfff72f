-- ===== src/Base/Bits/Digits.antt =====
-- One equation for the lowest digit of each native bit operation, from the recursion on digits
-- that it stands for.
use Prim.Native.Nat.{
  ℕ, zero, suc, ◌+◌, ◌*◌, ◌/◌, ◌%◌, ◌≤◌, min, max, digits, differ, bit_and, bit_or, bit_xor,
  bit_and-bitwise, bit_or-bitwise, bit_xor-bitwise,
}
use mathlib.Core.Path.{◌≡◌, refl}
use native.Mathlib.Omega.{arith}

module _ (z : ℕ → ℕ) (f : ℕ → ℕ → ℕ) where
  abbrev run : ℕ → ℕ → ℕ → ℕ
  run n x y = digits z f n x y

  run_fuel : (n m x y : ℕ) → x ≤ n → x ≤ m → run n x y ≡ run m x y
  run_fuel zero zero zero y le_n le_m = refl
  run_fuel zero (suc m) zero y le_n le_m = refl
  run_fuel (suc n) zero zero y le_n le_m = refl
  run_fuel (suc n) (suc m) zero y le_n le_m = refl
  run_fuel zero zero (suc x) y le_n le_m = refl
  run_fuel zero (suc m) (suc x) y le_n le_m = absurd (omega arith)
  run_fuel (suc n) zero (suc x) y le_n le_m = absurd (omega arith)
  run_fuel (suc n) (suc m) (suc x) y le_n le_m =
      omega (arith, run_fuel n m (suc x / 2) (y / 2) (omega arith) (omega arith))

  run_step :
      (x y : ℕ)
      → run (suc x) (suc x) y ≡ run (suc x / 2) (suc x / 2) (y / 2) * 2 + f (suc x % 2) (y % 2)
  run_step x y =
      omega (arith, run_fuel x (suc x / 2) (suc x / 2) (y / 2) (omega arith) (omega arith))

pub bit_and_step : (x y : ℕ) → bit_and x y ≡ bit_and (x / 2) (y / 2) * 2 + min (x % 2) (y % 2)
bit_and_step zero y = simp bit_and-bitwise (omega arith)
bit_and_step (suc x) y = simp bit_and-bitwise (run_step (λ _. 0) min x y)

pub bit_or_step : (x y : ℕ) → bit_or x y ≡ bit_or (x / 2) (y / 2) * 2 + max (x % 2) (y % 2)
bit_or_step zero y = simp bit_or-bitwise (omega arith)
bit_or_step (suc x) y = simp bit_or-bitwise (run_step (λ t. t) max x y)

pub bit_xor_step : (x y : ℕ) → bit_xor x y ≡ bit_xor (x / 2) (y / 2) * 2 + differ (x % 2) (y % 2)
bit_xor_step zero y = simp bit_xor-bitwise (omega arith)
bit_xor_step (suc x) y = simp bit_xor-bitwise (run_step (λ t. t) differ x y)
