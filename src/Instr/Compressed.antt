-- ===== src/Instr/Compressed.antt =====
-- instr.cpp: `enum Compressed::Opcode`, and `decode_compressed`, which tells the compressed
-- instructions apart. An exception is `none`.
use rvvp.Base.{ℕ, List, [], ◌∷◌, Option, none, some, ◌==◌, if◌then◌else◌}
use rvvp.Base.Bits.{truth}
use rvvp.Instr.Tree.{Architecture, is_rv32}
use rvvp.Instr.Fields.{quadrant, c_format, c_opcode, c_b12, c_rd, c_rs2, c_f2_high, c_f2_low}

pub data Compressed : Type 0 where
  c_illegal c_reserved c_addi4spn c_fld c_lq c_lw c_flw c_ld c_fsd c_sq : Compressed
  c_sw c_fsw c_sd c_nop c_addi c_jal c_addiw c_li c_addi16sp c_lui : Compressed
  c_srli c_srai c_andi c_sub c_xor c_or c_and c_subw c_addw c_j : Compressed
  c_beqz c_bnez c_slli c_fldsp c_lqsp c_lwsp c_flwsp c_ldsp c_jr c_mv : Compressed
  c_ebreak c_jalr c_add c_fsdsp c_sqsp c_swsp c_fswsp c_sdsp : Compressed

-- A `switch`, with the default behind the cases.
abbrev on_value : ℕ → List (ℕ × Compressed) → Compressed → Compressed
on_value n [] default = default
on_value n ((value, op) ∷ rest) default = if n == value then op else on_value n rest default

unfoldable pub quadrant_0 : ℕ → Architecture → Compressed
quadrant_0 instr arch =
    on_value (c_opcode instr)
      ((0b000, if c_format instr == 0 then c_illegal else c_addi4spn)
        ∷ (0b001, c_fld)
        ∷ (0b010, c_lw)
        ∷ (0b011, if is_rv32 arch then c_flw else c_ld)
        ∷ (0b100, c_reserved)
        ∷ (0b101, c_fsd)
        ∷ (0b110, c_sw)
        ∷ (0b111, if is_rv32 arch then c_fsw else c_sd)
        ∷ [])
      c_illegal

-- The cases of register arithmetic.
abbrev arithmetic : ℕ → Compressed
arithmetic instr =
    on_value (c_f2_high instr)
      ((0b00, c_srli)
        ∷ (0b01, c_srai)
        ∷ (0b10, c_andi)
        ∷ (
          0b11,
          if truth (c_b12 instr)
              then on_value (c_f2_low instr) ((0b00, c_subw) ∷ (0b01, c_addw) ∷ []) c_reserved
              else on_value (c_f2_low instr)
                  ((0b00, c_sub) ∷ (0b01, c_xor) ∷ (0b10, c_or) ∷ (0b11, c_and) ∷ []) c_illegal,
        )
        ∷ [])
      c_illegal

unfoldable pub quadrant_1 : ℕ → Architecture → Compressed
quadrant_1 instr arch =
    on_value (c_opcode instr)
      ((0b000, if c_format instr == 1 then c_nop else c_addi)
        ∷ (0b001, if is_rv32 arch then c_jal else c_addiw)
        ∷ (0b010, c_li)
        ∷ (0b011, if c_rd instr == 2 then c_addi16sp else c_lui)
        ∷ (0b100, arithmetic instr)
        ∷ (0b101, c_j)
        ∷ (0b110, c_beqz)
        ∷ (0b111, c_bnez)
        ∷ [])
      c_illegal

-- The cases of jumps to a register and moves.
abbrev jumps : ℕ → Compressed
jumps instr =
    if truth (c_b12 instr)
    then if truth (c_rd instr) then if truth (c_rs2 instr) then c_add else c_jalr else c_ebreak
    else if truth (c_rs2 instr)
    then c_mv
    else c_jr

unfoldable pub quadrant_2 : ℕ → Architecture → Compressed
quadrant_2 instr arch =
    on_value (c_opcode instr)
      ((0b000, c_slli)
        ∷ (0b001, c_fldsp)
        ∷ (0b010, c_lwsp)
        ∷ (0b011, if is_rv32 arch then c_flwsp else c_ldsp)
        ∷ (0b100, jumps instr)
        ∷ (0b101, c_fsdsp)
        ∷ (0b110, c_swsp)
        ∷ (0b111, if is_rv32 arch then c_fswsp else c_sdsp)
        ∷ [])
      c_illegal

unfoldable pub decode_compressed : ℕ → Architecture → Option Compressed
decode_compressed instr arch =
    if quadrant instr == 0
    then some (quadrant_0 instr arch)
    else if quadrant instr == 1
    then some (quadrant_1 instr arch)
    else if quadrant instr == 2
    then some (quadrant_2 instr arch)
    else if quadrant instr == 3
    then none
    else some c_illegal
