-- ===== src/Instr/Immediates.antt =====
-- instr.cpp: the immediates of the compressed instructions, as the bits of a 32-bit word.
use rvvp.Base.{ℕ, bit_or}
use rvvp.Instr.Word.{shl, bit_slice, bit_single_p1, bit_single_pn, extract_sign_bit}

unfoldable pub c_addi4spn_nzuimm : ℕ → ℕ
c_addi4spn_nzuimm n =
    bit_or
      (bit_or (bit_or (shl (bit_slice n 12 11) 4) (shl (bit_slice n 10 7) 6))
        (shl (bit_single_p1 n 6) 2))
      (shl (bit_single_p1 n 5) 3)

unfoldable pub c_lw_uimm : ℕ → ℕ
c_lw_uimm n =
    bit_or (bit_or (shl (bit_slice n 12 10) 3) (shl (bit_single_p1 n 6) 2))
      (shl (bit_single_p1 n 5) 6)

unfoldable pub c_ld_uimm : ℕ → ℕ
c_ld_uimm n = bit_or (shl (bit_slice n 12 10) 3) (shl (bit_slice n 6 5) 6)

abbrev pub c_sw_uimm : ℕ → ℕ
c_sw_uimm n = c_lw_uimm n

abbrev pub c_sd_uimm : ℕ → ℕ
c_sd_uimm n = c_ld_uimm n

unfoldable pub c_jal_imm : ℕ → ℕ
c_jal_imm n =
    bit_or
      (bit_or
        (bit_or
          (bit_or
            (bit_or
              (bit_or (bit_or (extract_sign_bit n 12 11) (bit_single_pn n 11 4))
                (shl (bit_slice n 10 9) 8))
              (bit_single_pn n 8 10))
            (bit_single_pn n 7 6))
          (bit_single_pn n 6 7))
        (shl (bit_slice n 5 3) 1))
      (bit_single_pn n 2 5)

unfoldable pub c_addi16sp_nzimm : ℕ → ℕ
c_addi16sp_nzimm n =
    bit_or
      (bit_or
        (bit_or (bit_or (extract_sign_bit n 12 9) (bit_single_pn n 6 4)) (bit_single_pn n 5 6))
        (shl (bit_slice n 4 3) 7))
      (bit_single_pn n 2 5)

unfoldable pub c_lui_nzimm : ℕ → ℕ
c_lui_nzimm n = bit_or (extract_sign_bit n 12 17) (shl (bit_slice n 6 2) 12)

abbrev pub c_j_imm : ℕ → ℕ
c_j_imm n = c_jal_imm n

unfoldable pub c_branch_imm : ℕ → ℕ
c_branch_imm n =
    bit_or
      (bit_or
        (bit_or (bit_or (extract_sign_bit n 12 8) (shl (bit_slice n 11 10) 3))
          (shl (bit_slice n 6 5) 6))
        (shl (bit_slice n 4 3) 1))
      (bit_single_pn n 2 5)

unfoldable pub c_lwsp_uimm : ℕ → ℕ
c_lwsp_uimm n =
    bit_or (bit_or (bit_single_pn n 12 5) (shl (bit_slice n 6 4) 2)) (shl (bit_slice n 3 2) 6)

unfoldable pub c_swsp_uimm : ℕ → ℕ
c_swsp_uimm n = bit_or (shl (bit_slice n 12 9) 2) (shl (bit_slice n 8 7) 6)

unfoldable pub c_ldsp_uimm : ℕ → ℕ
c_ldsp_uimm n =
    bit_or (bit_or (bit_single_pn n 12 5) (shl (bit_slice n 6 5) 3)) (shl (bit_slice n 4 2) 6)

unfoldable pub c_sdsp_uimm : ℕ → ℕ
c_sdsp_uimm n = bit_or (shl (bit_slice n 12 10) 3) (shl (bit_slice n 9 7) 6)
