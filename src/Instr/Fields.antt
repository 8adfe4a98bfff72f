-- ===== src/Instr/Fields.antt =====
-- instr.h: the fields and immediates of an `Instruction`. The member `instr` is an `int32_t`: the
-- fields that reach bit 31 are shifted with the sign, unless the source casts.
use rvvp.Base.{ℕ, ◌/◌, ◌^◌, Bool, ltb, bit_and, bit_or, bit_xor}
use rvvp.Base.Bits.{truth}
use rvvp.Instr.Word.{asr, shl, bit_range, bit_slice, bit_single, bit_single_p1, extract_sign_bit}

abbrev pub quadrant : ℕ → ℕ
quadrant instr = bit_and instr 3

abbrev pub is_compressed : ℕ → Bool
is_compressed instr = ltb (quadrant instr) 3

abbrev pub c_format : ℕ → ℕ
c_format instr = bit_and instr 0xffff

abbrev pub c_opcode : ℕ → ℕ
c_opcode instr = bit_slice instr 15 13

abbrev pub c_b12 : ℕ → ℕ
c_b12 instr = bit_single_p1 instr 12

abbrev pub rs1 : ℕ → ℕ
rs1 instr = bit_range instr 19 15 / 2 ^ 15

abbrev pub rs2 : ℕ → ℕ
rs2 instr = bit_range instr 24 20 / 2 ^ 20

abbrev pub rs3 : ℕ → ℕ
rs3 instr = bit_range instr 31 27 / 2 ^ 27

abbrev pub rd : ℕ → ℕ
rd instr = bit_range instr 11 7 / 2 ^ 7

abbrev pub c_rd : ℕ → ℕ
c_rd instr = rd instr

abbrev pub c_rd_small : ℕ → ℕ
c_rd_small instr = bit_or (bit_slice instr 9 7) 8

abbrev pub c_rs2_small : ℕ → ℕ
c_rs2_small instr = bit_or (bit_slice instr 4 2) 8

abbrev pub c_rs2 : ℕ → ℕ
c_rs2 instr = bit_slice instr 6 2

abbrev pub c_imm : ℕ → ℕ
c_imm instr = bit_or (bit_slice instr 6 2) (extract_sign_bit instr 12 5)

abbrev pub c_uimm : ℕ → ℕ
c_uimm instr = bit_or (bit_slice instr 6 2) (shl (bit_single_p1 instr 12) 5)

abbrev pub c_f2_high : ℕ → ℕ
c_f2_high instr = bit_slice instr 11 10

abbrev pub c_f2_low : ℕ → ℕ
c_f2_low instr = bit_slice instr 6 5

abbrev pub csr : ℕ → ℕ
csr instr = bit_range instr 31 20 / 2 ^ 20

abbrev pub zimm : ℕ → ℕ
zimm instr = bit_range instr 19 15 / 2 ^ 15

abbrev pub shamt : ℕ → ℕ
shamt instr = bit_range instr 25 20 / 2 ^ 20

abbrev pub shamt_w : ℕ → ℕ
shamt_w instr = bit_range instr 24 20 / 2 ^ 20

abbrev pub funct2 : ℕ → ℕ
funct2 instr = bit_range instr 26 25 / 2 ^ 25

abbrev pub funct3 : ℕ → ℕ
funct3 instr = bit_range instr 14 12 / 2 ^ 12

abbrev pub funct12 : ℕ → ℕ
funct12 instr = bit_range instr 31 20 / 2 ^ 20

abbrev pub funct7 : ℕ → ℕ
funct7 instr = bit_range instr 31 25 / 2 ^ 25

abbrev pub funct6 : ℕ → ℕ
funct6 instr = bit_range instr 31 26 / 2 ^ 26

abbrev pub funct5 : ℕ → ℕ
funct5 instr = bit_range instr 31 27 / 2 ^ 27

abbrev pub frm : ℕ → ℕ
frm instr = bit_slice instr 14 12

abbrev pub fence_succ : ℕ → ℕ
fence_succ instr = bit_slice instr 23 20

abbrev pub fence_pred : ℕ → ℕ
fence_pred instr = bit_slice instr 27 24

abbrev pub fence_fm : ℕ → ℕ
fence_fm instr = asr (bit_range instr 31 28) 28

abbrev pub aq : ℕ → Bool
aq instr = truth (bit_single instr 26)

abbrev pub rl : ℕ → Bool
rl instr = truth (bit_single instr 25)

abbrev pub opcode : ℕ → ℕ
opcode instr = bit_range instr 6 0

-- The immediates, as the bits of an `int32_t`.
unfoldable pub j_imm : ℕ → ℕ
j_imm instr =
    bit_or
      (bit_or (bit_or (asr (bit_single instr 31) 11) (bit_range instr 19 12))
        (bit_single instr 20 / 2 ^ 9))
      (bit_range instr 30 21 / 2 ^ 20)

unfoldable pub i_imm : ℕ → ℕ
i_imm instr = asr (bit_range instr 31 20) 20

unfoldable pub s_imm : ℕ → ℕ
s_imm instr = bit_or (asr (bit_range instr 31 25) 20) (bit_range instr 11 7 / 2 ^ 7)

unfoldable pub b_imm : ℕ → ℕ
b_imm instr =
    bit_or
      (bit_or (bit_or (asr (bit_single instr 31) 19) (shl (bit_single instr 7) 4))
        (bit_range instr 30 25 / 2 ^ 20))
      (bit_range instr 11 8 / 2 ^ 7)

unfoldable pub u_imm : ℕ → ℕ
u_imm instr = bit_range instr 31 12

-- The transformed instruction that a trap reports: each step clears a field.
abbrev cleared : ℕ → ℕ → ℕ → ℕ
cleared xtinst upper lower = bit_xor xtinst (bit_range xtinst upper lower)

unfoldable pub set_xtinst_for_opld : ℕ → ℕ
set_xtinst_for_opld xtinst = cleared (cleared (cleared xtinst 31 25) 24 20) 19 15

unfoldable pub set_xtinst_for_opst : ℕ → ℕ
set_xtinst_for_opst xtinst = cleared (cleared (cleared xtinst 31 25) 19 15) 11 7

unfoldable pub inst_set_addr_offs_to_zero : ℕ → ℕ
inst_set_addr_offs_to_zero xtinst = cleared xtinst 19 15
