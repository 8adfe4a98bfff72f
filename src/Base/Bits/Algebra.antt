-- ===== src/Base/Bits/Algebra.antt =====
-- `&` as an operation of a lattice with `|`: order of the arguments, distribution, and words whose
-- fields lie outside a mask.
use Prim.Native.Nat.{
  ℕ, zero, suc, ◌*◌, ◌/◌, ◌%◌, ◌^◌, ◌≤◌, ◌<◌, bit_and, bit_or, bit_and-bitwise, bit_or-bitwise,
}
use mathlib.Core.Path.{◌≡◌, refl, ◌∙◌, ap, sym}
use native.Mathlib.Nat.{mul-div_cancel, zero-div}
use native.Mathlib.Omega.{arith}
use rvvp.Base.Bits.Digits.{bit_and_step, bit_or_step}
use rvvp.Base.Bits.Mask.{bit_and-zero, bit_and_shifted, bit_and-mod, bit_and_assoc, bit_or-zero}
use rvvp.Base.Bits.Test.{two_pow_pos}

zero_left : (b : ℕ) → bit_and 0 b ≡ 0
zero_left b = bit_and-bitwise 0 b

pub bit_and_comm : (a b : ℕ) → bit_and a b ≡ bit_and b a
bit_and_comm a b = below a a b (omega arith)
  where
    below : (n a b : ℕ) → a ≤ n → bit_and a b ≡ bit_and b a
    below n zero b h = zero_left b ∙ sym (bit_and-zero b)
    below zero (suc a) b h = absurd (omega arith)
    below (suc n) (suc a) b h = omega (
      arith,
      bit_and_step (suc a) b,
      bit_and_step b (suc a),
      below n (suc a / 2) (b / 2) (omega arith),
    )

pub bit_and-bit_or : (a b m : ℕ) → bit_and (bit_or a b) m ≡ bit_or (bit_and a m) (bit_and b m)
bit_and-bit_or a b m = below m a b m (omega arith)
  where
    below : (n a b m : ℕ) → m ≤ n → bit_and (bit_or a b) m ≡ bit_or (bit_and a m) (bit_and b m)
    below n a b zero h =
        bit_and-zero (bit_or a b)
        ∙ sym (
            ap (λ (t : ℕ). bit_or t (bit_and b 0)) (bit_and-zero a)
            ∙ ap (bit_or 0) (bit_and-zero b))
    below zero a b (suc m) h = absurd (omega arith)
    below (suc n) a b (suc m) h =
        let left : bit_and (bit_or a b / 2) (suc m / 2)
            ≡ bit_and (bit_or (a / 2) (b / 2)) (suc m / 2) =
          ap (λ (t : ℕ). bit_and t (suc m / 2)) (omega (arith, bit_or_step a b)) in
        let first : bit_and a (suc m) / 2 ≡ bit_and (a / 2) (suc m / 2) =
          omega (arith, bit_and_step a (suc m)) in
        let second : bit_and b (suc m) / 2 ≡ bit_and (b / 2) (suc m / 2) =
          omega (arith, bit_and_step b (suc m)) in
        let right : bit_or (bit_and a (suc m) / 2) (bit_and b (suc m) / 2)
            ≡ bit_or (bit_and (a / 2) (suc m / 2)) (bit_and (b / 2) (suc m / 2)) =
          rw (first, second) refl in
        omega (
          arith,
          bit_and_step (bit_or a b) (suc m),
          bit_or_step a b,
          bit_or_step (bit_and a (suc m)) (bit_and b (suc m)),
          bit_and_step a (suc m),
          bit_and_step b (suc m),
          left,
          right,
          below n (a / 2) (b / 2) (suc m / 2) (omega arith),
        )

-- A part of a word that a mask does not see can be left out.
pub bit_or_left : (a b m : ℕ) → bit_and a m ≡ 0 → bit_and (bit_or a b) m ≡ bit_and b m
bit_or_left a b m h =
    bit_and-bit_or a b m ∙ ap (λ (t : ℕ). bit_or t (bit_and b m)) h ∙ bit_or-bitwise 0 (bit_and b m)

pub bit_or_right : (a b m : ℕ) → bit_and b m ≡ 0 → bit_and (bit_or a b) m ≡ bit_and a m
bit_or_right a b m h =
    bit_and-bit_or a b m ∙ ap (bit_or (bit_and a m)) h ∙ bit_or-zero (bit_and a m)

-- The bits of a field, where it is shifted to.
pub masked_off : (x a m : ℕ) → bit_and a m ≡ 0 → bit_and (bit_and x a) m ≡ 0
masked_off x a m h = bit_and_assoc x a m ∙ ap (bit_and x) h ∙ bit_and-zero x

pub shifted_off :
    (x k m : ℕ) → m < 2 ^ 32 → bit_and x (m / 2 ^ k) ≡ 0 → bit_and (x * 2 ^ k % 2 ^ 32) m ≡ 0
shifted_off x k m small h =
    sym (bit_and-mod 32 (x * 2 ^ k) m small)
    ∙ bit_and_comm (x * 2 ^ k) m
    ∙ bit_and_shifted m x k
    ∙ ap (λ (t : ℕ). t * 2 ^ k) (bit_and_comm (m / 2 ^ k) x ∙ h)
    ∙ omega arith

pub shifted_down_off : (x k m : ℕ) → bit_and x (m * 2 ^ k) ≡ 0 → bit_and (x / 2 ^ k) m ≡ 0
shifted_down_off x k m h =
    sym (mul-div_cancel (bit_and (x / 2 ^ k) m) (two_pow_pos k))
    ∙ ap (λ (t : ℕ). t / 2 ^ k) (sym (bit_and_shifted x m k) ∙ h)
    ∙ zero-div (2 ^ k)

pub bit_or-even : (a b : ℕ) → a % 2 ≡ 0 → b % 2 ≡ 0 → bit_or a b % 2 ≡ 0
bit_or-even a b even_a even_b = omega (arith, bit_or_step a b)

pub bit_or_assoc : (a b c : ℕ) → bit_or (bit_or a b) c ≡ bit_or a (bit_or b c)
bit_or_assoc a b c = below c a b c (omega arith)
  where
    below : (n a b c : ℕ) → c ≤ n → bit_or (bit_or a b) c ≡ bit_or a (bit_or b c)
    below n a b zero h = bit_or-zero (bit_or a b) ∙ sym (ap (bit_or a) (bit_or-zero b))
    below zero a b (suc c) h = absurd (omega arith)
    below (suc n) a b (suc c) h =
        let left : bit_or (bit_or a b / 2) (suc c / 2)
            ≡ bit_or (bit_or (a / 2) (b / 2)) (suc c / 2) =
          ap (λ (t : ℕ). bit_or t (suc c / 2)) (omega (arith, bit_or_step a b)) in
        let right : bit_or (a / 2) (bit_or b (suc c) / 2)
            ≡ bit_or (a / 2) (bit_or (b / 2) (suc c / 2)) =
          ap (bit_or (a / 2)) (omega (arith, bit_or_step b (suc c))) in
        omega (
          arith,
          bit_or_step a b,
          bit_or_step b (suc c),
          bit_or_step (bit_or a b) (suc c),
          bit_or_step a (bit_or b (suc c)),
          left,
          right,
          below n (a / 2) (b / 2) (suc c / 2) (omega arith),
        )

-- Parts of one word under two masks.
pub bit_or_masks : (x a b : ℕ) → bit_or (bit_and x a) (bit_and x b) ≡ bit_and x (bit_or a b)
bit_or_masks x a b =
    ap (λ (t : ℕ). bit_or t (bit_and x b)) (bit_and_comm x a)
    ∙ ap (bit_or (bit_and a x)) (bit_and_comm x b)
    ∙ sym (bit_and-bit_or a b x)
    ∙ bit_and_comm (bit_or a b) x

-- A field that is shifted to where the mask looks.
pub shifted_on :
    (x a k : ℕ)
    → a * 2 ^ k < 2 ^ 32
    → bit_and (bit_and x a * 2 ^ k % 2 ^ 32) (a * 2 ^ k) ≡ bit_and x a * 2 ^ k
shifted_on x a k small =
    sym (bit_and-mod 32 (bit_and x a * 2 ^ k) (a * 2 ^ k) small)
    ∙ bit_and_shifted (bit_and x a * 2 ^ k) a k
    ∙ ap (λ (t : ℕ). bit_and t a * 2 ^ k) (mul-div_cancel (bit_and x a) (two_pow_pos k))
    ∙ ap (λ (t : ℕ). t * 2 ^ k) (bit_and_assoc x a a ∙ ap (bit_and x) (bit_and_idem a))
  where
    bit_and_idem : (a : ℕ) → bit_and a a ≡ a
    bit_and_idem a = same a a (omega arith)
      where
        same : (n a : ℕ) → a ≤ n → bit_and a a ≡ a
        same n zero h = bit_and-zero 0
        same zero (suc a) h = absurd (omega arith)
        same (suc n) (suc a) h =
            omega (arith, bit_and_step (suc a) (suc a), same n (suc a / 2) (omega arith))
