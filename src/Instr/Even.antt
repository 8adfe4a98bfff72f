-- ===== src/Instr/Even.antt =====
-- The offsets of jumps and branches are even.
use rvvp.Base.{ℕ, ◌%◌, ◌≡◌, arith}
use rvvp.Base.Bits.{bit_or-even, bit_and_shifted, bit_and-pow}
use rvvp.Instr.Word.{asr, bit_single}
use rvvp.Instr.Fields.{j_imm, b_imm}

-- The sign of the word, shifted down by 11 and by 19.
sign_even_11 : (instr : ℕ) → asr (bit_single instr 31) 11 % 2 ≡ 0
unfolding asr
sign_even_11 instr = ground (arith, bit_and-pow instr 31)

sign_even_19 : (instr : ℕ) → asr (bit_single instr 31) 19 % 2 ≡ 0
unfolding asr
sign_even_19 instr = ground (arith, bit_and-pow instr 31)

pub j_imm-even : (instr : ℕ) → j_imm instr % 2 ≡ 0
unfolding j_imm
j_imm-even instr =
    bit_or-even _ _
      (bit_or-even _ _
        (bit_or-even _ _ (sign_even_11 instr) (omega (arith, bit_and_shifted instr 255 12)))
        (ground (arith, bit_and-pow instr 20)))
      (omega (arith, bit_and_shifted instr 1023 21))

pub b_imm-even : (instr : ℕ) → b_imm instr % 2 ≡ 0
unfolding b_imm
b_imm-even instr =
    bit_or-even _ _
      (bit_or-even _ _ (bit_or-even _ _ (sign_even_19 instr) (omega arith))
        (omega (arith, bit_and_shifted instr 63 25)))
      (omega (arith, bit_and_shifted instr 15 8))
