-- ===== src/Instr/Encodings.antt =====
-- The words that the factory builds, under masks that do not see their operands.
use rvvp.Base.{ℕ, ◌*◌, ◌/◌, ◌^◌, ◌<◌, ◌≡◌, ◌∙◌, ap, refl, sym, bit_and, bit_or, arith}
use rvvp.Base.Bits.{
  bit_and-bit_or, bit_or_left, bit_or_right, masked_off, shifted_off, shifted_down_off,
}
use rvvp.Instr.Word.{shl}
use rvvp.Instr.Factory.{r_form, i_form, shift_form, s_form, b_form, lui, jal}

module _ (m : ℕ) (small : m < 2 ^ 32) where
  -- A field of the word that the mask does not see.
  abbrev Unseen : ℕ → ℕ → Type 0
  Unseen bits k = bit_and bits (m / 2 ^ k) ≡ 0

  pub field_off : (x a k : ℕ) → Unseen a k → bit_and (shl (bit_and x a) k) m ≡ 0
  field_off x a k h = shifted_off (bit_and x a) k m small (masked_off x a (m / 2 ^ k) h)

  -- Two parts that the mask does not see are one.
  pub both_off : (a b : ℕ) → bit_and a m ≡ 0 → bit_and b m ≡ 0 → bit_and (bit_or a b) m ≡ 0
  both_off a b h k = bit_or_left a b m h ∙ k

  after :
      (a b : ℕ) (c : ℕ)
      → bit_and a m ≡ bit_and c m
      → bit_and (bit_or a b) m ≡ bit_and (bit_or c b) m
  after a b c h =
      bit_and-bit_or a b m ∙ ap (λ (t : ℕ). bit_or t (bit_and b m)) h ∙ sym (bit_and-bit_or c b m)

  pub r_form-bit_and :
      (op f3 f7 rd rs1 rs2 : ℕ)
      → Unseen 31 7
      → Unseen 31 15
      → Unseen 31 20
      → bit_and (r_form op f3 f7 rd rs1 rs2) m
        ≡ bit_and (bit_or (bit_or op (shl f3 12)) (shl f7 25)) m
  unfolding r_form
  r_form-bit_and op f3 f7 rd rs1 rs2 h7 h15 h20 = after _ _ _ (
      after _ _ _ (
        bit_or_left _ op m (
          both_off _ _ (both_off _ _ (field_off rd 31 7 h7) (field_off rs1 31 15 h15))
            (field_off rs2 31 20 h20))))

  pub i_form-bit_and :
      (op f3 rd rs1 imm : ℕ)
      → Unseen 31 7
      → Unseen 31 15
      → Unseen 4095 20
      → bit_and (i_form op f3 rd rs1 imm) m ≡ bit_and (bit_or op (shl f3 12)) m
  unfolding i_form
  i_form-bit_and op f3 rd rs1 imm h7 h15 h20 = after _ _ _ (
      bit_or_left _ op m (
        both_off _ _ (both_off _ _ (field_off imm 4095 20 h20) (field_off rd 31 7 h7))
          (field_off rs1 31 15 h15)))

  -- The mask may see bits of the shift amount that are clear.
  pub shift_form-bit_and :
      (f3 f7 rd rs1 shamt : ℕ)
      → Unseen 31 7
      → Unseen 31 15
      → bit_and (bit_and shamt 63) (m / 2 ^ 20) ≡ 0
      → bit_and (shift_form f3 f7 rd rs1 shamt) m
        ≡ bit_and (bit_or (bit_or 19 (shl f3 12)) (shl f7 25)) m
  unfolding shift_form
  shift_form-bit_and f3 f7 rd rs1 shamt h7 h15 h20 = after _ _ _ (
      after _ _ _ (
        bit_or_left _ 19 m (
          both_off _ _ (both_off _ _ (field_off rd 31 7 h7) (field_off rs1 31 15 h15))
            (shifted_off (bit_and shamt 63) 20 m small h20))))

  pub s_form-bit_and :
      (op f3 rs1 rs2 imm : ℕ)
      → Unseen 31 7
      → Unseen (127 * 2 ^ 5) 20
      → Unseen 31 15
      → Unseen 31 20
      → bit_and (s_form op f3 rs1 rs2 imm) m ≡ bit_and (bit_or op (shl f3 12)) m
  unfolding s_form
  s_form-bit_and op f3 rs1 rs2 imm h7 h5 h15 h20 = after _ _ _ (
      bit_or_left _ op m (
        both_off _ _
          (both_off _ _ (both_off _ _ (field_off imm 31 7 h7) (field_off imm (127 * 2 ^ 5) 20 h5))
            (field_off rs1 31 15 h15))
          (field_off rs2 31 20 h20)))

  pub b_form-bit_and :
      (f3 rs1 rs2 imm : ℕ)
      → Unseen 30 7
      → bit_and (2 ^ 11) (m * 2 ^ 4) ≡ 0
      → Unseen (63 * 2 ^ 5) 20
      → Unseen (2 ^ 12) 19
      → Unseen 31 15
      → Unseen 31 20
      → bit_and (b_form f3 rs1 rs2 imm) m ≡ bit_and (bit_or 99 (shl f3 12)) m
  unfolding b_form
  b_form-bit_and f3 rs1 rs2 imm h1 h11 h5 h12 h15 h20 = after _ _ _ (
      bit_or_left _ 99 m (
        both_off _ _
          (both_off _ _
            (both_off _ _
              (both_off _ _ (field_off imm 30 7 h1) (
                shifted_down_off (bit_and imm (2 ^ 11)) 4 m
                  (masked_off imm (2 ^ 11) (m * 2 ^ 4) h11)))
              (both_off _ _ (field_off imm (63 * 2 ^ 5) 20 h5) (field_off imm (2 ^ 12) 19 h12)))
            (field_off rs1 31 15 h15))
          (field_off rs2 31 20 h20)))

pub lui-bit_and : (rd imm : ℕ) → bit_and (lui rd imm) 0x7f ≡ 55
unfolding lui
lui-bit_and rd imm =
    let small : 0x7f < 2 ^ 32 = omega arith in
    bit_or_left _ 55 0x7f (
      both_off 0x7f small _ _ (masked_off imm (1048575 * 2 ^ 12) 0x7f refl)
        (field_off 0x7f small rd 31 7 refl))

pub jal-bit_and : (rd imm : ℕ) → bit_and (jal rd imm) 0x7f ≡ 111
unfolding jal
jal-bit_and rd imm =
    let small : 0x7f < 2 ^ 32 = omega arith in
    let off = both_off 0x7f small in
    bit_or_right (bit_or 111 (shl (bit_and rd 31) 7)) _ 0x7f (
      off _ _
        (off _ _
          (off _ _ (masked_off imm (255 * 2 ^ 12) 0x7f refl)
            (field_off 0x7f small imm (2 ^ 11) 9 refl))
          (field_off 0x7f small imm 0b11111111110 20 refl))
        (field_off 0x7f small imm (2 ^ 20) 11 refl))
    ∙ bit_or_right 111 _ 0x7f (field_off 0x7f small rd 31 7 refl)
