-- ===== src/Base/Bits/Test.antt =====
-- The test of one bit, and what `&`, `|`, `^` and `~` do to it.
use Prim.Native.Nat.{ℕ, zero, suc, ◌-◌, ◌*◌, ◌/◌, ◌%◌, ◌^◌, ◌≤◌, ◌<◌, bit_and, bit_or}
use mathlib.Core.Path.{◌≡◌, refl, ◌∙◌}
use mathlib.Core.Bool.{Bool, false, not, ◌&&◌, ◌||◌}
use native.Mathlib.Nat.{pow-suc, one-le-pow}
use native.Mathlib.Omega.{arith}
use rvvp.Base.Tests.{◌==◌}
use rvvp.Base.Bits.Digits.{bit_and_step, bit_or_step}

-- Bit `k` of `n`.
unfoldable pub test_bit : ℕ → ℕ → Bool
test_bit n zero = n % 2 == 1
test_bit n (suc k) = test_bit (n / 2) k

-- `~x` on an unsigned word of `w` bits.
abbrev pub bit_not : ℕ → ℕ → ℕ
bit_not w x = 2 ^ w - 1 - x

-- A word as a condition: `if (x)`.
abbrev pub truth : ℕ → Bool
truth x = not (x == 0)

pub two-pow-suc : (k : ℕ) → 2 ^ suc k ≡ 2 * 2 ^ k
two-pow-suc k = omega (arith, pow-suc 2 k)

pub two_pow_pos : (k : ℕ) → 1 ≤ 2 ^ k
two_pow_pos k = one-le-pow k 2 (omega arith)

pub test_bit-bit_and : (a b k : ℕ) → test_bit (bit_and a b) k ≡ (test_bit a k && test_bit b k)
unfolding test_bit
test_bit-bit_and a b zero = ground (arith, bit_and_step a b)
test_bit-bit_and a b (suc k) =
    let h : bit_and a b / 2 ≡ bit_and (a / 2) (b / 2) = omega (arith, bit_and_step a b) in
    rw h (test_bit-bit_and (a / 2) (b / 2) k)

pub test_bit-bit_or : (a b k : ℕ) → test_bit (bit_or a b) k ≡ (test_bit a k || test_bit b k)
unfolding test_bit
test_bit-bit_or a b zero = ground (arith, bit_or_step a b)
test_bit-bit_or a b (suc k) =
    let h : bit_or a b / 2 ≡ bit_or (a / 2) (b / 2) = omega (arith, bit_or_step a b) in
    rw h (test_bit-bit_or (a / 2) (b / 2) k)

pub test_bit-zero : (k : ℕ) → test_bit 0 k ≡ false
unfolding test_bit
test_bit-zero zero = refl
test_bit-zero (suc k) = test_bit-zero k

pub test_bit-pow : (k j : ℕ) → test_bit (2 ^ k) j ≡ (k == j)
unfolding test_bit
test_bit-pow zero zero = refl
test_bit-pow zero (suc j) = test_bit-zero j ∙ ground arith
test_bit-pow (suc k) zero = ground (arith, two-pow-suc k)
test_bit-pow (suc k) (suc j) =
    let h : 2 ^ suc k / 2 ≡ 2 ^ k = omega (arith, two-pow-suc k) in
    rw h (test_bit-pow k j ∙ ground arith)

-- Complement in `w` bits.
pub test_bit-bit_not :
    (w x k : ℕ) → x < 2 ^ w → k < w → test_bit (bit_not w x) k ≡ not (test_bit x k)
unfolding test_bit
test_bit-bit_not zero x k h lt = absurd (omega arith)
test_bit-bit_not (suc w) x zero h lt = ground (arith, two-pow-suc w)
test_bit-bit_not (suc w) x (suc k) h lt =
    let e : bit_not (suc w) x / 2 ≡ bit_not w (x / 2) = omega (arith, two-pow-suc w) in
    rw e (test_bit-bit_not w (x / 2) k (omega (arith, two-pow-suc w)) (omega arith))

-- A word below `2 ^ w` has no bit from `w` on.
pub test_bit-eq-false : (w x k : ℕ) → x < 2 ^ w → w ≤ k → test_bit x k ≡ false
unfolding test_bit
test_bit-eq-false zero x k h le = let e : x ≡ 0 = omega arith in rw e (test_bit-zero k)
test_bit-eq-false (suc w) x zero h le = absurd (omega arith)
test_bit-eq-false (suc w) x (suc k) h le =
    test_bit-eq-false w (x / 2) k (omega (arith, two-pow-suc w)) (omega arith)
