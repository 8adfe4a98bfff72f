-- ===== src/Instr/Reach.antt =====
-- What the words of a code, those with its encoding under its mask, do in a tree of tests.
use rvvp.Base.{
  ℕ, ◌+◌, ◌-◌, ◌*◌, ◌/◌, ◌^◌, ◌≡◌, ◌≢◌, refl, sym, ap, ◌∙◌, Bool, true, false, ◌&&◌, not,
  Bool-cases, inl, inr, Option, none, some, ◌==◌, if◌then◌else◌, bit_and, arith,
}
use mathlib.Core.Path.{subst}
use rvvp.Base.Bits.{bit_and_assoc, bit_and_shifted, two_pow_pos}
use native.Mathlib.Nat.{mul-div_cancel}
use rvvp.Instr.Mapping.{Mapping, undef}
use rvvp.Instr.Codes.{Code}
use rvvp.Instr.Tree.{
  Field, upper, lower, field, Tree, undefined, matched, test, run, match_and_return,
}

-- The bits of a field.
abbrev field_mask : Field → ℕ
field_mask f = (2 ^ (upper f - lower f + 1) - 1) * 2 ^ lower f

-- Every word of the code has the value `v` in the field.
abbrev fixes : Code → Field → ℕ → Bool
fixes c f v =
    (bit_and c.mask (field_mask f) == field_mask f)
    && (bit_and c.encoding (field_mask f) == v * 2 ^ lower f)

-- No word of the code has it.
abbrev excludes : Code → Field → ℕ → Bool
excludes c f v =
    let common = bit_and c.mask (field_mask f) in
    (bit_and (field_mask f) common == common)
    && (bit_and c.mask common == common)
    && not (bit_and (v * 2 ^ lower f) common == bit_and c.encoding common)

-- The leaf that the words of a code reach, if the tests are decided by the code.
unfoldable pub reach : Code → Tree → Option (Code × Mapping)
reach c undefined = none
reach c (matched c' m) = some (c', m)
reach c (test f v yes_tree no_tree) =
    let found = reach c yes_tree in
    let passed = reach c no_tree in
    if fixes c f v then found else if excludes c f v then passed else none

-- The word is one of the code's.
abbrev pub Matches : Code → ℕ → Type 0
Matches c instr = bit_and instr c.mask ≡ c.encoding

-- What a word of the code has in some of the bits of the mask.
part :
    (c : Code) (instr m : ℕ)
    → Matches c instr
    → bit_and c.mask m ≡ m
    → bit_and instr m ≡ bit_and c.encoding m
part c instr m h inside =
    ap (bit_and instr) (sym inside)
    ∙ sym (bit_and_assoc instr c.mask m)
    ∙ ap (λ (t : ℕ). bit_and t m) h

unshifted : (f : Field) (x : ℕ) → x * 2 ^ lower f / 2 ^ lower f ≡ x
unshifted f x = mul-div_cancel x (two_pow_pos (lower f))

field_value :
    (f : Field) (instr v : ℕ) → bit_and instr (field_mask f) ≡ v * 2 ^ lower f → field f instr ≡ v
field_value f instr v h = rw h (unshifted f v)

field_range :
    (f : Field) (instr v : ℕ) → field f instr ≡ v → bit_and instr (field_mask f) ≡ v * 2 ^ lower f
field_range f instr v h =
    let w = 2 ^ (upper f - lower f + 1) - 1 in
    let low : bit_and (instr / 2 ^ lower f) w ≡ v =
      sym (unshifted f (bit_and (instr / 2 ^ lower f) w))
      ∙ ap (λ (t : ℕ). t / 2 ^ lower f) (sym (bit_and_shifted instr w (lower f)))
      ∙ h in
    bit_and_shifted instr w (lower f) ∙ ap (λ (t : ℕ). t * 2 ^ lower f) low

field-fixes :
    (c : Code) (f : Field) (v instr : ℕ) → Matches c instr → fixes c f v ≡ true → field f instr ≡ v
field-fixes c f v instr h fixed =
    let inside : bit_and c.mask (field_mask f) ≡ field_mask f = ground arith in
    let value : bit_and c.encoding (field_mask f) ≡ v * 2 ^ lower f = ground arith in
    field_value f instr v (part c instr (field_mask f) h inside ∙ value)

field-excludes :
    (c : Code) (f : Field) (v instr : ℕ)
    → Matches c instr
    → excludes c f v ≡ true
    → field f instr ≢ v
field-excludes c f v instr h out same =
    let common = bit_and c.mask (field_mask f) in
    let in_field : bit_and (field_mask f) common ≡ common = ground arith in
    let in_mask : bit_and c.mask common ≡ common = ground arith in
    let differ : bit_and (v * 2 ^ lower f) common ≢ bit_and c.encoding common = ground arith in
    differ (
      ap (λ (t : ℕ). bit_and t common) (sym (field_range f instr v same))
      ∙ bit_and_assoc instr (field_mask f) common
      ∙ ap (bit_and instr) in_field
      ∙ part c instr common h in_mask)

-- A word of the code takes the way of the code.
run-reach :
    (c : Code) (t : Tree) (instr : ℕ) (c' : Code) (m : Mapping)
    → Matches c instr
    → reach c t ≡ some (c', m)
    → run instr t ≡ match_and_return instr c' m
unfolding reach run
run-reach c undefined instr c' m h e = cc e
run-reach c (matched c1 m1) instr c' m h e =
    let same : ◌≡◌ {A = Code × Mapping} (c1, m1) (c', m) = cc e in
    ap (λ (l : Code × Mapping). match_and_return instr l.0 l.1) same
run-reach c (test f v yes_tree no_tree) instr c' m h e = elim (Bool-cases (fixes c f v)) [
  | inl fixed ↦
      let here : (field f instr == v) ≡ true = ground (arith, field-fixes c f v instr h fixed) in
      rw here (run-reach c yes_tree instr c' m h (rw fixed at e))
  | inr free ↦ elim (Bool-cases (excludes c f v)) [
    | inl out ↦
        let there : (field f instr == v) ≡ false =
          ground (arith, field-excludes c f v instr h out) in
        rw there (run-reach c no_tree instr c' m h (rw (free, out) at e))
    | inr unclear ↦ cc (rw (free, unclear) at e)
  ]
]

unfoldable pub same_code : Code → Code → Bool
same_code c d = c.mask == d.mask && c.encoding == d.encoding

same_code-eq : (c d : Code) → same_code c d ≡ true → c ≡ d
unfolding same_code
same_code-eq c d h =
    let m : c.mask ≡ d.mask = ground arith in
    let e : c.encoding ≡ d.encoding = ground arith in λ i. record { mask = m i; encoding = e i }

-- A test for a code passes the words of the code and no other.
match_and_return-cases :
    (c : Code) (m m' : Mapping) (instr : ℕ)
    → m' ≢ undef
    → match_and_return instr c m ≡ m'
    → (m ≡ m') × Matches c instr
match_and_return-cases c m m' instr some_m h =
    elim (Bool-cases (bit_and instr c.mask == c.encoding)) [
      | inl fit ↦ (rw fit at h, ground arith)
      | inr off ↦ absurd (some_m (sym (rw off at h)))
    ]

match_and_return-Matches :
    (c : Code) (m : Mapping) (instr : ℕ) → Matches c instr → match_and_return instr c m ≡ m
match_and_return-Matches c m instr fit =
    let here : (bit_and instr c.mask == c.encoding) ≡ true = ground arith in rw here refl

module _ (codes : Mapping → Code) where
  -- Each leaf tests for the code of its own instruction.
  unfoldable pub leaves : Tree → Bool
  leaves undefined = true
  leaves (matched c m) = same_code c (codes m)
  leaves (test f v yes_tree no_tree) = leaves yes_tree && leaves no_tree

  pub run-Matches :
      (t : Tree) (instr : ℕ) (m : Mapping)
      → leaves t ≡ true
      → m ≢ undef
      → run instr t ≡ m
      → Matches (codes m) instr
  unfolding leaves run
  run-Matches undefined instr m own some_m h = absurd (some_m (sym h))
  run-Matches (matched c m1) instr m own some_m h =
      let (same, fit) = match_and_return-cases c m1 m instr some_m h in
      subst (λ m2. Matches (codes m2) instr) same
        (subst (λ d. Matches d instr) (same_code-eq c (codes m1) own) fit)
  run-Matches (test f v yes_tree no_tree) instr m own some_m h =
      let (own_yes, own_no) : (leaves yes_tree ≡ true) × (leaves no_tree ≡ true) = ground arith in
      elim (Bool-cases (field f instr == v)) [
        | inl here ↦ run-Matches yes_tree instr m own_yes some_m (rw here at h)
        | inr there ↦ run-Matches no_tree instr m own_no some_m (rw there at h)
      ]

  -- The leaf that is reached is that of the code and, by its number, of the instruction.
  unfoldable pub arrived : (Mapping → ℕ) → Code → Mapping → Option (Code × Mapping) → Bool
  arrived index c m none = false
  arrived index c m (some (c', m')) = same_code c' c && index m' == index m

  pub arrived-run :
      (index : Mapping → ℕ) (t : Tree) (instr : ℕ) (m : Mapping) (o : Option (Code × Mapping))
      → ((m' : Mapping) → index m' ≡ index m → m' ≡ m)
      → reach (codes m) t ≡ o
      → arrived index (codes m) m o ≡ true
      → Matches (codes m) instr
      → run instr t ≡ m
  unfolding arrived
  arrived-run index t instr m none injective e h fit = cc h
  arrived-run index t instr m (some (c, m')) injective e h fit =
      let (codes_same, number) : (same_code c (codes m) ≡ true) × ((index m' == index m) ≡ true) =
        ground arith in
      run-reach (codes m) t instr c m' fit e
      ∙ match_and_return-Matches c m' instr
          (subst (λ d. Matches d instr) (sym (same_code-eq c (codes m) codes_same)) fit)
      ∙ injective m' (ground arith)
