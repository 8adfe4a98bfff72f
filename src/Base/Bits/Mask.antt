-- ===== src/Base/Bits/Mask.antt =====
-- `&` with one bit and with a mask of low or high bits, `|` of disjoint fields, as arithmetic.
use Prim.Native.Nat.{
  ℕ, zero, suc, ◌+◌, ◌-◌, ◌*◌, ◌/◌, ◌%◌, ◌^◌, ◌≤◌, ◌<◌, bit_and, bit_or, bit_and-bitwise,
}
use mathlib.Core.Path.{◌≡◌, refl, ◌∙◌, ap, sym}
use native.Mathlib.Nat.{
  div-add-mod', mul-add-mod_self_right, mod-eq_of_lt, pow-le-pow_right, div-div-eq-div-mul,
}
use native.Mathlib.Omega.{arith}
use rvvp.Base.Tests.{if◌then◌else◌}
use rvvp.Base.Bits.Digits.{bit_and_step, bit_or_step}
use rvvp.Base.Bits.Test.{test_bit, bit_not, truth, two-pow-suc, two_pow_pos}

pub bit_and-zero : (a : ℕ) → bit_and a 0 ≡ 0
bit_and-zero a = below a a (omega arith)
  where
    below : (n a : ℕ) → a ≤ n → bit_and a 0 ≡ 0
    below n zero h = refl
    below zero (suc a) h = absurd (omega arith)
    below (suc n) (suc a) h =
        omega (arith, bit_and_step (suc a) 0, below n (suc a / 2) (omega arith))

pub bit_or-zero : (a : ℕ) → bit_or a 0 ≡ a
bit_or-zero a = below a a (omega arith)
  where
    below : (n a : ℕ) → a ≤ n → bit_or a 0 ≡ a
    below n zero h = refl
    below zero (suc a) h = absurd (omega arith)
    below (suc n) (suc a) h =
        omega (arith, bit_or_step (suc a) 0, below n (suc a / 2) (omega arith))

-- `x & (1 << k)` is the bit at its weight.
pub bit_and-pow : (a k : ℕ) → bit_and a (2 ^ k) ≡ (if test_bit a k then 2 ^ k else 0)
unfolding test_bit
bit_and-pow a zero = ground (arith, bit_and_step a 1, bit_and-zero (a / 2))
bit_and-pow a (suc k) =
    ground (arith, bit_and_step a (2 ^ suc k), two-pow-suc k, bit_and-pow (a / 2) k, half)
  where
    half : bit_and (a / 2) (2 ^ suc k / 2) ≡ bit_and (a / 2) (2 ^ k)
    half = ap (bit_and (a / 2)) (omega (arith, two-pow-suc k))

div-two-mul : (a m : ℕ) → a / (2 * m) ≡ a / 2 / m
div-two-mul a m = sym (div-div-eq-div-mul a 2 m)

-- A mask shifted by `k` looks at the word from bit `k` on.
pub bit_and_shifted : (a m k : ℕ) → bit_and a (m * 2 ^ k) ≡ bit_and (a / 2 ^ k) m * 2 ^ k
bit_and_shifted a m zero =
    ap (bit_and a) {y = m} (omega arith)
    ∙ ap (λ (t : ℕ). bit_and t m) {y = a / 1} (omega arith)
    ∙ omega arith
bit_and_shifted a m (suc k) =
    let twice : m * 2 ^ suc k ≡ 2 * (m * 2 ^ k) =
      omega (arith, ap (λ (t : ℕ). m * t) (two-pow-suc k)) in
    let half : bit_and (a / 2) (m * 2 ^ suc k / 2) ≡ bit_and (a / 2) (m * 2 ^ k) =
      ap (bit_and (a / 2)) (omega arith) in
    let rest : bit_and (a / 2 / 2 ^ k) m ≡ bit_and (a / 2 ^ suc k) m =
      ap (λ (t : ℕ). bit_and t m)
        (sym (ap (λ (t : ℕ). a / t) (two-pow-suc k) ∙ div-two-mul a (2 ^ k))) in
    let size : bit_and (a / 2 ^ suc k) m * 2 ^ suc k ≡ 2 * (bit_and (a / 2 / 2 ^ k) m * 2 ^ k) =
      ap (λ (t : ℕ). bit_and (a / 2 ^ suc k) m * t) (two-pow-suc k)
      ∙ ap (λ (t : ℕ). t * (2 * 2 ^ k)) (sym rest)
      ∙ omega arith in
    omega (arith, bit_and_step a (m * 2 ^ suc k), twice, half, bit_and_shifted (a / 2) m k, size)

-- `if (x & (1 << k))` tests bit `k`.
pub truth-bit_and-pow : (a k : ℕ) → truth (bit_and a (2 ^ k)) ≡ test_bit a k
truth-bit_and-pow a k = ground (arith, bit_and-pow a k, two_pow_pos k)

pub mul-add-mod : (m q r : ℕ) → r < m → (q * m + r) % m ≡ r
mul-add-mod m q r h = mul-add-mod_self_right q m r ∙ mod-eq_of_lt h

-- The remainder by twice `m`, from that of the half.
mod-two-mul : (a m : ℕ) → 1 ≤ m → a % (2 * m) ≡ a / 2 % m * 2 + a % 2
mod-two-mul a m h =
    ap (λ (t : ℕ). t % (2 * m)) split ∙ mul-add-mod (2 * m) (a / 2 / m) low (omega arith)
  where
    low : ℕ
    low = a / 2 % m * 2 + a % 2

    split : a ≡ a / 2 / m * (2 * m) + low
    split = omega (arith, div-add-mod' (a / 2) m)

-- A mask of `k` low bits is the remainder by `2 ^ k`.
pub bit_and_mask : (a k : ℕ) → bit_and a (2 ^ k - 1) ≡ a % 2 ^ k
bit_and_mask a zero = ground (arith, bit_and-zero a)
bit_and_mask a (suc k) =
    let half : bit_and (a / 2) ((2 ^ suc k - 1) / 2) ≡ bit_and (a / 2) (2 ^ k - 1) =
      ap (bit_and (a / 2)) (omega (arith, two-pow-suc k, two_pow_pos k)) in
    omega (
      arith,
      bit_and_step a (2 ^ suc k - 1),
      half,
      bit_and_mask (a / 2) k,
      two-pow-suc k,
      two_pow_pos k,
      ap (λ (m : ℕ). a % m) (two-pow-suc k),
      mod-two-mul a (2 ^ k) (two_pow_pos k),
    )

-- `|` of a high and a low field.
pub bit_or_fields : (k q r : ℕ) → r < 2 ^ k → bit_or (q * 2 ^ k) r ≡ q * 2 ^ k + r
bit_or_fields zero q r h = ground (arith, bit_or-zero q)
bit_or_fields (suc k) q r h =
    let whole : q * 2 ^ suc k ≡ 2 * (q * 2 ^ k) =
      omega (arith, ap (λ (t : ℕ). q * t) (two-pow-suc k)) in
    let high : bit_or (q * 2 ^ suc k / 2) (r / 2) ≡ bit_or (q * 2 ^ k) (r / 2) =
      ap (λ (t : ℕ). bit_or t (r / 2)) (omega arith) in
    omega (
      arith,
      bit_or_step (q * 2 ^ suc k) r,
      high,
      bit_or_fields k q (r / 2) (omega (arith, two-pow-suc k)),
    )

-- `x & ~(2 ^ k - 1)` clears the `k` low bits.
pub bit_and_high :
    (w k a : ℕ) → a < 2 ^ w → k ≤ w → bit_and a (bit_not w (2 ^ k - 1)) ≡ a / 2 ^ k * 2 ^ k
bit_and_high w zero a h le =
    ap (bit_and a) {y = 2 ^ w - 1} (omega arith) ∙ bit_and_mask a w ∙ mod-eq_of_lt h ∙ omega arith
bit_and_high zero (suc k) a h le = absurd (omega arith)
bit_and_high (suc w) (suc k) a h le =
    let half : bit_and (a / 2) (bit_not (suc w) (2 ^ suc k - 1) / 2)
        ≡ bit_and (a / 2) (bit_not w (2 ^ k - 1)) =
      ap (bit_and (a / 2)) (omega (arith, facts)) in
    omega (
      arith,
      facts,
      bit_and_step a (bit_not (suc w) (2 ^ suc k - 1)),
      half,
      bit_and_high w k (a / 2) (omega (arith, two-pow-suc w)) (omega arith),
      whole,
    )
  where
    facts : (2 ^ suc k ≡ 2 * 2 ^ k) × (2 ^ suc w ≡ 2 * 2 ^ w) × (1 ≤ 2 ^ k) × (2 ^ k ≤ 2 ^ w)
    facts =
        (two-pow-suc k, two-pow-suc w, two_pow_pos k, pow-le-pow_right (omega arith) (omega arith))

    whole : a / 2 ^ suc k * 2 ^ suc k ≡ 2 * (a / 2 / 2 ^ k * 2 ^ k)
    whole =
        ap (λ (m : ℕ). a / m * m) (two-pow-suc k)
        ∙ ap (λ (q : ℕ). q * (2 * 2 ^ k)) (div-two-mul a (2 ^ k))
        ∙ omega arith

-- A mask of `w` bits sees the `w` low bits of the word.
pub bit_and-mod : (w a m : ℕ) → m < 2 ^ w → bit_and a m ≡ bit_and (a % 2 ^ w) m
bit_and-mod zero a m h =
    let z : m ≡ 0 = omega arith in rw z (bit_and-zero a ∙ sym (bit_and-zero (a % 2 ^ 0)))
bit_and-mod (suc w) a m h =
    let split : a % 2 ^ suc w ≡ a / 2 % 2 ^ w * 2 + a % 2 =
      ap (λ (t : ℕ). a % t) (two-pow-suc w) ∙ mod-two-mul a (2 ^ w) (two_pow_pos w) in
    let high : bit_and (a % 2 ^ suc w / 2) (m / 2) ≡ bit_and (a / 2 % 2 ^ w) (m / 2) =
      ap (λ (t : ℕ). bit_and t (m / 2)) (omega arith) in
    omega (
      arith,
      bit_and_step a m,
      bit_and_step (a % 2 ^ suc w) m,
      split,
      high,
      bit_and-mod w (a / 2) (m / 2) (omega (arith, two-pow-suc w)),
    )

pub bit_and_assoc : (a b c : ℕ) → bit_and (bit_and a b) c ≡ bit_and a (bit_and b c)
bit_and_assoc a b c = below a a b c (omega arith)
  where
    zero_left : (b : ℕ) → bit_and 0 b ≡ 0
    zero_left b = bit_and-bitwise 0 b

    below : (n a b c : ℕ) → a ≤ n → bit_and (bit_and a b) c ≡ bit_and a (bit_and b c)
    below n zero b c h =
        ap (λ (t : ℕ). bit_and t c) (zero_left b) ∙ zero_left c ∙ sym (zero_left (bit_and b c))
    below zero (suc a) b c h = absurd (omega arith)
    below (suc n) (suc a) b c h =
        let inner = bit_and_step (suc a) b in
        let outer = bit_and_step b c in
        let left : bit_and (bit_and (suc a) b / 2) (c / 2)
            ≡ bit_and (bit_and (suc a / 2) (b / 2)) (c / 2) =
          ap (λ (t : ℕ). bit_and t (c / 2)) (omega arith) in
        let right : bit_and (suc a / 2) (bit_and b c / 2)
            ≡ bit_and (suc a / 2) (bit_and (b / 2) (c / 2)) =
          ap (bit_and (suc a / 2)) (omega arith) in
        omega (
          arith,
          bit_and_step (bit_and (suc a) b) c,
          bit_and_step (suc a) (bit_and b c),
          left,
          right,
          below n (suc a / 2) (b / 2) (c / 2) (omega arith),
        )
