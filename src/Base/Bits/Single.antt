-- ===== src/Base/Bits/Single.antt =====
-- Words with one bit set or cleared, or with the bits below one kept.
use Prim.Native.Nat.{ℕ, zero, suc, ◌-◌, ◌/◌, ◌^◌, ◌≤◌, ◌<◌, bit_and, bit_or}
use mathlib.Core.Path.{◌≡◌, ap, ◌∙◌}
use mathlib.Core.Bool.{Bool, not, ◌&&◌, ◌||◌}
use native.Mathlib.Nat.{pow-le-pow_right}
use native.Mathlib.Omega.{arith}
use rvvp.Base.Tests.{ltb, ◌==◌}
use rvvp.Base.Bits.Test.{
  test_bit, bit_not, two-pow-suc, two_pow_pos, test_bit-zero, test_bit-bit_and, test_bit-bit_or,
  test_bit-pow, test_bit-bit_not,
}

pub small_pow : (k : ℕ) → k < 32 → 2 ^ k < 2 ^ 32
small_pow k h =
    let le : 2 ^ k ≤ 2 ^ 31 = pow-le-pow_right (omega arith) {j = 31} (omega arith) in omega arith

-- A bit of the word with one bit set, and with one cleared.
pub set_bit : (w k m : ℕ) → test_bit (bit_or w (2 ^ k)) m ≡ (test_bit w m || k == m)
set_bit w k m =
    test_bit-bit_or w (2 ^ k) m ∙ ap (λ (b : Bool). test_bit w m || b) (test_bit-pow k m)

pub clear_bit :
    (w k m : ℕ)
    → k < 32
    → m < 32
    → test_bit (bit_and w (bit_not 32 (2 ^ k))) m ≡ (test_bit w m && not (k == m))
clear_bit w k m low lt =
    test_bit-bit_and w (bit_not 32 (2 ^ k)) m
    ∙ ap (λ (b : Bool). test_bit w m && b)
        (test_bit-bit_not 32 (2 ^ k) m (small_pow k low) lt ∙ ap not (test_bit-pow k m))

test_bit-ones : (k j : ℕ) → test_bit (2 ^ k - 1) j ≡ ltb j k
unfolding test_bit
test_bit-ones zero j = test_bit-zero j ∙ ground arith
test_bit-ones (suc k) zero = ground (arith, two-pow-suc k, two_pow_pos k)
test_bit-ones (suc k) (suc j) =
    let h : (2 ^ suc k - 1) / 2 ≡ 2 ^ k - 1 = omega (arith, two-pow-suc k, two_pow_pos k) in
    rw h (test_bit-ones k j ∙ ground arith)

-- The bits of a word below one of them.
pub low_bits : (w k m : ℕ) → test_bit (bit_and w (2 ^ k - 1)) m ≡ (test_bit w m && ltb m k)
low_bits w k m =
    test_bit-bit_and w (2 ^ k - 1) m ∙ ap (λ (b : Bool). test_bit w m && b) (test_bit-ones k m)
