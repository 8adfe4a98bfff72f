-- ===== src/Iss/Division.antt =====
-- DIV and REM fit together.
use rvvp.Base.{
  ℕ, ◌+◌, ◌-◌, ◌*◌, ◌/◌, ◌%◌, ◌^◌, ◌<◌, ◌≤◌, ◌≡◌, ◌⊎◌, inl, inr, refl, ap, sym, ◌∙◌, Bool, true,
  false, ◌&&◌, Bool-cases, ltb, ltb→lt, ◌==◌, if◌then◌else◌, arith,
}
use native.Mathlib.Nat.{div-add-mod', add-mul, mul-add, mod-lt, mod-le, div-le_self}
use rvvp.Iss.Alu.{
  word, opposite, magnitude, is_negative, minus_one, reg_min, quotient, remainder, div, rem,
}

-- A word and the word of its opposite.
opposite-sum : (q : ℕ) → q < 2 ^ 32 → (opposite q + q ≡ 0) ⊎ (opposite q + q ≡ 2 ^ 32)
opposite-sum q h = ground arith

-- The product with the opposite of a word, up to a multiple of 2 ^ 32.
opposite-mul :
    (q b : ℕ) → q < 2 ^ 32 → (opposite q * b + q * b ≡ 0) ⊎ (opposite q * b + q * b ≡ 2 ^ 32 * b)
opposite-mul q b h = elim (opposite-sum q h) [
  | inl none ↦ inl (sym (add-mul (opposite q) q b) ∙ ap (λ (t : ℕ). t * b) none ∙ omega arith)
  | inr whole ↦ inr (sym (add-mul (opposite q) q b) ∙ ap (λ (t : ℕ). t * b) whole)
]

-- The product with a word of which `m` is the opposite number.
negative-mul : (q b m : ℕ) → b + m ≡ 2 ^ 32 → q * b + q * m ≡ q * 2 ^ 32
negative-mul q b m h = sym (mul-add q b m) ∙ ap (λ (t : ℕ). q * t) h

-- A sum of two words that is 0 or a multiple of 2 ^ 32.
abbrev Wraps : ℕ → ℕ → ℕ → Type 0
Wraps x y k = (x + y ≡ 0) ⊎ (x + y ≡ 2 ^ 32 * k)

-- The products in the three cases with a negative number, as unknowns.
negative_positive :
    (a b m x y r r' : ℕ)
    → y + r ≡ m
    → a + m ≡ 2 ^ 32
    → 0 < a
    → 0 < m
    → 0 < b
    → Wraps x y b
    → Wraps r' r 1
    → word (x + r') ≡ a
negative_positive a b m x y r r' split opp pos_a pos_m pos_b (inl w) (inl v) = omega arith
negative_positive a b m x y r r' split opp pos_a pos_m pos_b (inl w) (inr v) = omega arith
negative_positive a b m x y r r' split opp pos_a pos_m pos_b (inr w) (inl v) = omega arith
negative_positive a b m x y r r' split opp pos_a pos_m pos_b (inr w) (inr v) = omega arith

-- `x` is q' b, `z` is q' n and `y` is q n.
positive_negative :
    (a n x y z q' r : ℕ)
    → y + r ≡ a
    → a < 2 ^ 31
    → x + z ≡ q' * 2 ^ 32
    → Wraps z y n
    → word (x + r) ≡ a
positive_negative a n x y z q' r split small product (inl w) = omega arith
positive_negative a n x y z q' r split small product (inr w) = omega arith

negative_negative :
    (a m q x y r r' : ℕ)
    → y + r ≡ m
    → a + m ≡ 2 ^ 32
    → 0 < a
    → 0 < m
    → x + y ≡ q * 2 ^ 32
    → Wraps r' r 1
    → word (x + r') ≡ a
negative_negative a m q x y r r' split opp pos_a pos_m product (inl v) = omega arith
negative_negative a m q x y r r' split opp pos_a pos_m product (inr v) = omega arith

-- A quotient and a remainder of words are words.
quotient_lt : (m n : ℕ) → m < 2 ^ 32 → m / n < 2 ^ 32
quotient_lt m n lt = omega (arith, div-le_self m n)

remainder_lt : (m n : ℕ) → m < 2 ^ 32 → m % n < 2 ^ 32
remainder_lt m n lt = omega (arith, mod-le m n)

module _ (a b : ℕ) (a_lt : a < 2 ^ 32) (b_lt : b < 2 ^ 32) (b_pos : 0 < b) where
  m : ℕ
  m = 2 ^ 32 - a

  quotient_split : word (quotient a b * b + remainder a b) ≡ a
  unfolding quotient remainder m
  quotient_split = elim (Bool-cases (ltb a (2 ^ 31))) [
    | inl pos_a ↦ elim (Bool-cases (ltb b (2 ^ 31))) [
      | inl pos_b ↦ rw (pos_a, pos_b) (omega (arith, div-add-mod' a b))
      | inr neg_b ↦
          let n = 2 ^ 32 - b in
          let q = opposite (a / n) in
          let small : a < 2 ^ 31 = ltb→lt a (2 ^ 31) pos_a in
          rw (pos_a, neg_b)
            (positive_negative a n (q * b) (a / n * n) (q * n) q (a % n) (div-add-mod' a n) small
              (negative-mul q b n (omega arith)) (opposite-mul (a / n) n (quotient_lt a n a_lt)))
    ]
    | inr neg_a ↦
        let large : 2 ^ 31 ≤ a = ground arith in
        let m_lt : m < 2 ^ 32 = omega arith in
        elim (Bool-cases (ltb b (2 ^ 31))) [
          | inl pos_b ↦
              rw (neg_a, pos_b)
                (negative_positive a b m (opposite (m / b) * b) (m / b * b) (m % b)
                  (opposite (m % b)) (div-add-mod' m b) (omega arith) (omega arith) (omega arith)
                  b_pos (opposite-mul (m / b) b (quotient_lt m b m_lt))
                  (opposite-sum (m % b) (remainder_lt m b m_lt)))
          | inr neg_b ↦
              let n = 2 ^ 32 - b in
              rw (neg_a, neg_b)
                (negative_negative a m (m / n) (m / n * b) (m / n * n) (m % n) (opposite (m % n))
                  (div-add-mod' m n) (omega arith) (omega arith) (omega arith)
                  (negative-mul (m / n) b n (omega arith))
                  (opposite-sum (m % n) (remainder_lt m n m_lt)))
        ]
  ]

  magnitude_bounds : (w : ℕ) → 0 < w → w < 2 ^ 32 → (0 < magnitude w) × (magnitude w ≤ 2 ^ 31)
  magnitude_bounds w pos lt = ground arith

  -- The remainder is closer to 0 than the divisor.
  remainder-magnitude : magnitude (remainder a b) < magnitude b
  unfolding remainder
  remainder-magnitude = sign (is_negative a) (mod-lt (magnitude a) bounds.0)
    where
      bounds : (0 < magnitude b) × (magnitude b ≤ 2 ^ 31)
      bounds = magnitude_bounds b b_pos b_lt

      sign :
          (negative : Bool)
          → magnitude a % magnitude b < magnitude b
          → magnitude
              (if negative then opposite (magnitude a % magnitude b) else magnitude a % magnitude b)
            < magnitude b
      sign true small = ground arith
      sign false small = ground arith

  -- The remainder is 0 or has the sign of the dividend.
  remainder-sign : (remainder a b ≡ 0) ⊎ (is_negative (remainder a b) ≡ is_negative a)
  unfolding remainder
  remainder-sign = sign (magnitude a % magnitude b) low
    where
      bounds : (0 < magnitude b) × (magnitude b ≤ 2 ^ 31)
      bounds = magnitude_bounds b b_pos b_lt

      low : magnitude a % magnitude b < 2 ^ 31
      low = omega (arith, mod-lt (magnitude a) bounds.0, bounds)

      sign :
          (r : ℕ)
          → r < 2 ^ 31
          → ((if is_negative a then opposite r else r) ≡ 0)
            ⊎ (is_negative (if is_negative a then opposite r else r) ≡ is_negative a)
      sign r small = ground arith

abbrev pub IsDivided : ℕ → ℕ → ℕ → ℕ → Type 0
IsDivided a b q r =
    (word (q * b + r) ≡ a)
    × ((b ≡ 0) ⊎ (magnitude r < magnitude b))
    × ((r ≡ 0) ⊎ (is_negative r ≡ is_negative a))

-- The results of DIV and REM on any two words: quotient times divisor plus remainder is the dividend
-- modulo 2 ^ 32, also for the divisor 0 and for the division that overflows; the remainder is closer to
-- 0 than the divisor unless that is 0, and it is 0 or has the sign of the dividend.
pub div-rem : (a b : ℕ) → a < 2 ^ 32 → b < 2 ^ 32 → IsDivided a b (div a b) (rem a b)
unfolding div rem
div-rem a b a_lt b_lt = by_zero (b == 0) refl
  where
    overflowing : Bool
    overflowing = a == reg_min && b == minus_one

    overflow :
        (o : Bool)
        → overflowing ≡ o
        → 0 < b
        → IsDivided a b (if o then a else quotient a b) (if o then 0 else remainder a b)
    overflow true e pos =
        let ea : a ≡ reg_min = ground arith in
        let eb : b ≡ minus_one = ground arith in
        rw (ea, eb) (omega arith, inr (omega arith), inl refl)
    overflow false e pos = (
      quotient_split a b a_lt b_lt pos,
      inr (remainder-magnitude a b a_lt b_lt pos),
      remainder-sign a b a_lt b_lt pos,
    )

    by_zero :
        (z : Bool)
        → (b == 0) ≡ z
        → IsDivided a b
            (if z then minus_one else if overflowing then a else quotient a b)
            (if z then a else if overflowing then 0 else remainder a b)
    by_zero true e =
        let zero_b : b ≡ 0 = ground arith in rw zero_b (omega arith, inl refl, inr refl)
    by_zero false e = overflow overflowing refl (ground arith)
