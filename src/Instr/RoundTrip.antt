-- ===== src/Instr/RoundTrip.antt =====
-- The immediates that the accessors read from the words that the factory builds.
use rvvp.Base.{
  ℕ, ◌+◌, ◌-◌, ◌*◌, ◌/◌, ◌%◌, ◌^◌, ◌<◌, ◌≡◌, ◌∙◌, ap, refl, ltb, if◌then◌else◌, bit_and, bit_or,
  arith,
}
use rvvp.Base.Bits.{
  bit_or_left, bit_or_right, bit_or_assoc, bit_or_masks, bit_or_fields, bit_and_mask,
  bit_and_shifted, bit_and_assoc, masked_off, shifted_on, two_pow_pos,
}
use native.Mathlib.Nat.{mul-div_cancel}
use rvvp.Instr.Word.{asr, shl, bit_range, bit_single}
use rvvp.Instr.Fields.{i_imm, j_imm}
use rvvp.Instr.Factory.{i_form, jal}
use rvvp.Instr.Encodings.{field_off, both_off}

-- The `k` low bits of a word as an `int32_t`.
abbrev pub sign_extended : ℕ → ℕ → ℕ
sign_extended k w =
    if ltb (w % 2 ^ k) (2 ^ (k - 1)) then w % 2 ^ k else w % 2 ^ k + (2 ^ 32 - 2 ^ k)

high_off : (x : ℕ) → x < 2 ^ 20 → bit_and x (4095 * 2 ^ 20) ≡ 0
high_off x lt =
    bit_and_shifted x 4095 20
    ∙ ap (λ (t : ℕ). bit_and t 4095 * 2 ^ 20) {x = x / 2 ^ 20} {y = 0} (omega arith)

i_form-range :
    (op f3 rd rs1 imm : ℕ)
    → op < 2 ^ 7
    → f3 < 2 ^ 3
    → bit_range (i_form op f3 rd rs1 imm) 31 20 ≡ bit_and imm 4095 * 2 ^ 20
unfolding i_form
i_form-range op f3 rd rs1 imm op_lt f3_lt =
    let m = 4095 * 2 ^ 20 in
    let small : m < 2 ^ 32 = omega arith in
    bit_or_right _ (shl f3 12) m (high_off (shl f3 12) (omega arith))
    ∙ bit_or_right _ op m (high_off op (omega arith))
    ∙ bit_or_right _ (shl (bit_and rs1 31) 15) m (field_off m small rs1 31 15 refl)
    ∙ bit_or_right _ (shl (bit_and rd 31) 7) m (field_off m small rd 31 7 refl)
    ∙ shifted_on imm 4095 20 small

i_imm-i_form :
    (op f3 rd rs1 imm : ℕ)
    → op < 2 ^ 7
    → f3 < 2 ^ 3
    → i_imm (i_form op f3 rd rs1 imm) ≡ sign_extended 12 imm
unfolding i_imm asr
i_imm-i_form op f3 rd rs1 imm op_lt f3_lt =
    ap (λ (w : ℕ). asr w 20) (i_form-range op f3 rd rs1 imm op_lt f3_lt)
    ∙ ap (λ (v : ℕ). asr (v * 2 ^ 20) 20) (bit_and_mask imm 12)
    ∙ signed (imm % 2 ^ 12) (omega arith)
  where
    signed :
        (v : ℕ)
        → v < 2 ^ 12
        → asr (v * 2 ^ 20) 20 ≡ (if ltb v (2 ^ 11) then v else v + (2 ^ 32 - 2 ^ 12))
    signed v lt = ground arith

module _ (rd imm : ℕ) where
  abbrev part_19_12 : ℕ
  part_19_12 = bit_and imm (255 * 2 ^ 12)

  abbrev part_11 : ℕ
  part_11 = shl (bit_and imm (2 ^ 11)) 9

  abbrev part_10_1 : ℕ
  part_10_1 = shl (bit_and imm 0b11111111110) 20

  abbrev part_20 : ℕ
  part_20 = shl (bit_and imm (2 ^ 20)) 11

  -- The part of the operand, where the mask does not see opcode and register.
  operand :
      (m : ℕ)
      → m < 2 ^ 32
      → bit_and 111 m ≡ 0
      → bit_and 31 (m / 2 ^ 7) ≡ 0
      → bit_and (jal rd imm) m
        ≡ bit_and (bit_or (bit_or (bit_or part_19_12 part_11) part_10_1) part_20) m
  unfolding jal
  operand m small op_off rd_off =
      bit_or_left _ _ m (both_off m small 111 _ op_off (field_off m small rd 31 7 rd_off))

  jal_31 : bit_single (jal rd imm) 31 ≡ bit_and imm (2 ^ 20) * 2 ^ 11
  jal_31 =
      let m = 2 ^ 31 in
      let small : m < 2 ^ 32 = omega arith in
      operand m small refl refl
      ∙ bit_or_left _ _ m (
          both_off m small _ _
            (both_off m small _ _ (masked_off imm (255 * 2 ^ 12) m refl)
              (field_off m small imm (2 ^ 11) 9 refl))
            (field_off m small imm 0b11111111110 20 refl))
      ∙ shifted_on imm (2 ^ 20) 11 small

  jal_19_12 : bit_range (jal rd imm) 19 12 ≡ bit_and imm (255 * 2 ^ 12)
  jal_19_12 =
      let m = 255 * 2 ^ 12 in
      let small : m < 2 ^ 32 = omega arith in
      operand m small refl refl
      ∙ bit_or_right _ _ m (field_off m small imm (2 ^ 20) 11 refl)
      ∙ bit_or_right _ _ m (field_off m small imm 0b11111111110 20 refl)
      ∙ bit_or_right _ _ m (field_off m small imm (2 ^ 11) 9 refl)
      ∙ bit_and_assoc imm m m

  jal_20 : bit_single (jal rd imm) 20 ≡ bit_and imm (2 ^ 11) * 2 ^ 9
  jal_20 =
      let m = 2 ^ 20 in
      let small : m < 2 ^ 32 = omega arith in
      operand m small refl refl
      ∙ bit_or_right _ _ m (field_off m small imm (2 ^ 20) 11 refl)
      ∙ bit_or_right _ _ m (field_off m small imm 0b11111111110 20 refl)
      ∙ bit_or_left _ _ m (masked_off imm (255 * 2 ^ 12) m refl)
      ∙ shifted_on imm (2 ^ 11) 9 small

  jal_30_21 : bit_range (jal rd imm) 30 21 ≡ bit_and imm 0b11111111110 * 2 ^ 20
  jal_30_21 =
      let m = 1023 * 2 ^ 21 in
      let small : m < 2 ^ 32 = omega arith in
      operand m small refl refl
      ∙ bit_or_right _ _ m (field_off m small imm (2 ^ 20) 11 refl)
      ∙ bit_or_left _ _ m (
          both_off m small _ _ (masked_off imm (255 * 2 ^ 12) m refl)
            (field_off m small imm (2 ^ 11) 9 refl))
      ∙ shifted_on imm 0b11111111110 20 small

-- `j_imm` of the four fields that it reads.
abbrev assembled : ℕ → ℕ → ℕ → ℕ → ℕ
assembled s a b c = bit_or (bit_or (bit_or (asr s 11) a) (b / 2 ^ 9)) (c / 2 ^ 20)

j_imm-assembled :
    (instr : ℕ)
    → j_imm instr
      ≡ assembled
          (bit_single instr 31)
          (bit_range instr 19 12)
          (bit_single instr 20)
          (bit_range instr 30 21)
unfolding j_imm
j_imm-assembled instr = refl

-- The three lower parts are the bits 1 to 19 of the offset.
low_parts :
    (imm : ℕ)
    → bit_or
        (bit_and imm (255 * 2 ^ 12))
        (bit_or (bit_and imm (2 ^ 11)) (bit_and imm 0b11111111110))
      ≡ imm / 2 % 2 ^ 19 * 2
low_parts imm =
    ap (bit_or (bit_and imm (255 * 2 ^ 12))) (bit_or_masks imm (2 ^ 11) 0b11111111110)
    ∙ bit_or_masks imm (255 * 2 ^ 12) 0b111111111110
    ∙ bit_and_shifted imm (2 ^ 19 - 1) 1
    ∙ ap (λ (t : ℕ). t * 2 ^ 1) (bit_and_mask (imm / 2) 19)

sign_part : (imm : ℕ) → asr (bit_and imm (2 ^ 20) * 2 ^ 11) 11 ≡ imm / 2 ^ 20 % 2 * 4095 * 2 ^ 20
unfolding asr
sign_part imm =
    ap (λ (v : ℕ). asr (v * 2 ^ 11) 11)
      (bit_and_shifted imm 1 20 ∙ ap (λ (t : ℕ). t * 2 ^ 20) (bit_and_mask (imm / 2 ^ 20) 1))
    ∙ of_bit (imm / 2 ^ 20 % 2) (omega arith)
  where
    of_bit : (t : ℕ) → t < 2 → asr (t * 2 ^ 20 * 2 ^ 11) 11 ≡ t * 4095 * 2 ^ 20
    of_bit t lt = ground arith

together :
    (imm : ℕ)
    → imm / 2 ^ 20 % 2 * 4095 * 2 ^ 20 + imm / 2 % 2 ^ 19 * 2 ≡ sign_extended 21 (imm / 2 * 2)
together imm = ground arith

j_imm-jal : (rd imm : ℕ) → j_imm (jal rd imm) ≡ sign_extended 21 (imm / 2 * 2)
j_imm-jal rd imm =
    let s = asr (bit_and imm (2 ^ 20) * 2 ^ 11) 11 in
    let a = bit_and imm (255 * 2 ^ 12) in
    let b = bit_and imm (2 ^ 11) in
    let c = bit_and imm 0b11111111110 in
    j_imm-assembled (jal rd imm)
    ∙ (λ i. assembled (jal_31 rd imm i) (jal_19_12 rd imm i) (jal_20 rd imm i) (jal_30_21 rd imm i))
    ∙ (λ i.
        bit_or (bit_or (bit_or s a) (mul-div_cancel b (two_pow_pos 9) i))
          (mul-div_cancel c (two_pow_pos 20) i))
    ∙ bit_or_assoc (bit_or s a) b c
    ∙ bit_or_assoc s a (bit_or b c)
    ∙ (λ i. bit_or (sign_part imm i) (low_parts imm i))
    ∙ bit_or_fields 20 (imm / 2 ^ 20 % 2 * 4095) (imm / 2 % 2 ^ 19 * 2) (omega arith)
    ∙ together imm

-- What the factory writes as the immediate of a word of format I or of JAL is read back by `i_imm` and
-- `j_imm`: the 12 low bits with their sign, and the 21 low bits with theirs, but for bit 0, which JAL has
-- no place for. The opcode has 7 bits and the function field 3.
pub immediates_read_back :
    (op f3 rd rs1 imm : ℕ)
    → op < 2 ^ 7
    → f3 < 2 ^ 3
    → (i_imm (i_form op f3 rd rs1 imm) ≡ sign_extended 12 imm)
      × (j_imm (jal rd imm) ≡ sign_extended 21 (imm / 2 * 2))
immediates_read_back op f3 rd rs1 imm op_lt f3_lt =
    (i_imm-i_form op f3 rd rs1 imm op_lt f3_lt, j_imm-jal rd imm)
