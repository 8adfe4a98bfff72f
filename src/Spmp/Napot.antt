-- ===== src/Spmp/Napot.antt =====
-- The address register of a NAPOT entry, and the range that `find_matching_entry` reads from it.
use native.Mathlib.Nat.{pow-le-pow_right, div-div-eq-div-mul, mul-add-div_right, div-eq_of_lt}
use rvvp.Base.{
  ℕ, zero, suc, ◌+◌, ◌-◌, ◌*◌, ◌/◌, ◌%◌, ◌^◌, ◌≤◌, ◌<◌, ◌≡◌, sym, ap, ◌∙◌, arith, bit_and,
}
use rvvp.Base.Bits.{bit_not, bit_and_high, two-pow-suc, two_pow_pos}
use rvvp.Spmp.Region.{zero_bit, int_bit, napot_region}

-- The register for the naturally aligned range number `base` of the `2 ^ (k + 3)` byte ranges.
abbrev pub napot : ℕ → ℕ → ℕ
napot base k = base * 2 ^ suc k + (2 ^ k - 1)

halved : (i val : ℕ) → val / 2 ^ suc i ≡ val / 2 ^ i / 2
halved i val =
    ap (λ (p : ℕ). val / p) {y = 2 ^ i * 2} (omega (arith, two-pow-suc i))
    ∙ sym (div-div-eq-div-mul val (2 ^ i) 2)

zero_bit-ones :
    (n i k val base : ℕ)
    → k < n
    → val / 2 ^ i ≡ base * 2 ^ suc k + (2 ^ k - 1)
    → zero_bit n i val ≡ i + k
unfolding zero_bit
zero_bit-ones zero i k val base h e = absurd (omega arith)
zero_bit-ones (suc n) i zero val base h e = ground arith
zero_bit-ones (suc n) i (suc k) val base h e =
    let p = two-pow-suc k in
    let q : base * 2 ^ suc (suc k) ≡ 2 * (base * 2 ^ suc k) =
      omega (arith, ap (λ (t : ℕ). base * t) (two-pow-suc (suc k))) in
    let next : val / 2 ^ suc i ≡ base * 2 ^ suc k + (2 ^ k - 1) =
      omega (arith, halved i val, p, q, two_pow_pos k) in
    let odd : val / 2 ^ i % 2 ≡ 1 = omega (arith, p, q, two_pow_pos k) in
    ground (arith, zero_bit-ones n (suc i) k val base (omega arith) next)

small_int_bit : (k : ℕ) → k < 31 → int_bit k ≡ 2 ^ k
unfolding int_bit
small_int_bit k h = let e : k % 32 ≡ k = omega arith in rw e (ground arith)

-- The register written for a naturally aligned range of 8 bytes up to 4 GiB, in the 34-bit address
-- space, is read back as exactly that range.
pub napot_region-napot :
    (base k : ℕ)
    → k < 30
    → napot base k < 2 ^ 32
    → napot_region (napot base k)
      ≡ record { start_addr = base * 2 ^ (k + 3); end_addr = (base + 1) * 2 ^ (k + 3) }
unfolding napot_region
napot_region-napot base k h word =
    let val = base * 2 ^ suc k + (2 ^ k - 1) in
    let p = two-pow-suc k in
    let pos_k = two_pow_pos k in
    let cover : 2 ^ suc k ≤ 2 ^ 30 = pow-le-pow_right (omega arith) {j = 30} (omega arith) in
    let ones : zero_bit 32 0 val ≡ k =
      zero_bit-ones 32 0 k val base (omega arith) (omega arith) ∙ omega arith in
    let size : int_bit (zero_bit 32 0 val + 1) ≡ 2 ^ suc k =
      ap (λ (j : ℕ). int_bit (j + 1)) ones
      ∙ ap int_bit {y = suc k} (omega arith)
      ∙ small_int_bit (suc k) (omega arith) in
    let start : bit_and val (bit_not 64 (2 ^ suc k - 1)) ≡ base * 2 ^ suc k =
      bit_and_high 64 (suc k) val (omega arith) (omega arith)
      ∙ ap (λ (t : ℕ). t * 2 ^ suc k)
          (mul-add-div_right (two_pow_pos (suc k)) base (2 ^ k - 1)
            ∙ omega (arith, div-eq_of_lt {n = 2 ^ k - 1} {m = 2 ^ suc k} (omega arith))) in
    let eight : 2 ^ (k + 3) ≡ 4 * 2 ^ suc k =
      ap (λ (j : ℕ). 2 ^ j) {y = suc (suc (suc k))} (omega arith)
      ∙ omega (arith, two-pow-suc (suc (suc k)), two-pow-suc (suc k)) in
    let whole : base * 2 ^ (k + 3) ≡ 4 * (base * 2 ^ suc k) =
      ap (λ (t : ℕ). base * t) eight ∙ omega arith in
    let next : (base + 1) * 2 ^ (k + 3) ≡ base * 2 ^ (k + 3) + 2 ^ (k + 3) = omega arith in
    rw (size, start) (ground arith)
