-- ===== src/Instr/Decode/Integer.antt =====
-- instr.cpp: `decode_normal`, the cases of the integer instructions.
use rvvp.Base.{[], ◌∷◌, if◌then◌else◌}
use rvvp.Instr.Mapping.{
  beq, bne, blt, bge, bltu, bgeu, lb, lh, lw, lbu, lhu, sb, sh, sw, addi, slti, sltiu, xori, ori,
  andi, slli, srli, srai, add, sub, sll, slt, sltu, xor, srl, sra, or, and, mul, mulh, mulhsu,
  mulhu, div, divu, rem, remu, lwu, ld, sd, addiw, slliw, srliw, sraiw,
}
use rvvp.Instr.Parts.{
  f3_lb, f3_lh, f3_lw, f3_lbu, f3_lhu, f3_lwu, f3_ld, f3_sb, f3_sh, f3_sw, f3_sd, f3_beq, f3_bne,
  f3_blt, f3_bge, f3_bltu, f3_bgeu, f3_addi, f3_slti, f3_sltiu, f3_xori, f3_ori, f3_andi, f3_slli,
  f3_srli, f6_srli, f6_srai, f3_add, f7_add, f3_sub, f7_sub, f3_sll, f3_slt, f3_sltu, f3_xor,
  f3_srl, f3_sra, f3_or, f3_and, f3_mul, f7_mul, f3_mulh, f3_mulhsu, f3_mulhu, f3_div, f3_divu,
  f3_rem, f3_remu, f3_addiw, f3_slliw, f3_srliw, f7_srliw, f7_sraiw,
}
use rvvp.Instr.Codes.{slli_32, srli_32, srai_32}
use rvvp.Instr.Tree.{
  Architecture, is_rv32, Tree, known, matched, undefined, case, switch, f_funct3, f_funct6,
  f_funct7,
}

abbrev pub decode_op_beq : Tree
decode_op_beq =
    switch f_funct3
      (case f3_beq (known beq)
        ∷ case f3_bne (known bne)
        ∷ case f3_blt (known blt)
        ∷ case f3_bge (known bge)
        ∷ case f3_bltu (known bltu)
        ∷ case f3_bgeu (known bgeu)
        ∷ [])
      undefined

abbrev pub decode_op_lb : Tree
decode_op_lb =
    switch f_funct3
      (case f3_lb (known lb)
        ∷ case f3_lh (known lh)
        ∷ case f3_lw (known lw)
        ∷ case f3_lbu (known lbu)
        ∷ case f3_lhu (known lhu)
        ∷ case f3_lwu (known lwu)
        ∷ case f3_ld (known ld)
        ∷ [])
      undefined

abbrev pub decode_op_sb : Tree
decode_op_sb =
    switch f_funct3
      (case f3_sb (known sb)
        ∷ case f3_sh (known sh)
        ∷ case f3_sw (known sw)
        ∷ case f3_sd (known sd)
        ∷ [])
      undefined

abbrev pub decode_op_addi : Architecture → Tree
decode_op_addi arch =
    switch f_funct3
      (case f3_addi (known addi)
        ∷ case f3_slti (known slti)
        ∷ case f3_sltiu (known sltiu)
        ∷ case f3_xori (known xori)
        ∷ case f3_ori (known ori)
        ∷ case f3_andi (known andi)
        ∷ case f3_slli ((if is_rv32 arch then matched slli_32 slli else known slli))
        ∷ case f3_srli (
            switch f_funct6
              (case f6_srli ((if is_rv32 arch then matched srli_32 srli else known srli))
                ∷ case f6_srai ((if is_rv32 arch then matched srai_32 srai else known srai))
                ∷ [])
              undefined)
        ∷ [])
      undefined

abbrev pub decode_op_addiw : Tree
decode_op_addiw =
    switch f_funct3
      (case f3_addiw (known addiw)
        ∷ case f3_slliw (known slliw)
        ∷ case f3_srliw (
            switch f_funct7 (case f7_srliw (known srliw) ∷ case f7_sraiw (known sraiw) ∷ [])
              undefined)
        ∷ [])
      undefined

abbrev pub decode_op_add : Tree
decode_op_add =
    switch f_funct7
      (case f7_add (
          switch f_funct3
            (case f3_add (known add)
              ∷ case f3_sll (known sll)
              ∷ case f3_slt (known slt)
              ∷ case f3_sltu (known sltu)
              ∷ case f3_xor (known xor)
              ∷ case f3_srl (known srl)
              ∷ case f3_or (known or)
              ∷ case f3_and (known and)
              ∷ [])
            undefined)
        ∷ case f7_sub
            (switch f_funct3 (case f3_sub (known sub) ∷ case f3_sra (known sra) ∷ []) undefined)
        ∷ case f7_mul (
            switch f_funct3
              (case f3_mul (known mul)
                ∷ case f3_mulh (known mulh)
                ∷ case f3_mulhsu (known mulhsu)
                ∷ case f3_mulhu (known mulhu)
                ∷ case f3_div (known div)
                ∷ case f3_divu (known divu)
                ∷ case f3_rem (known rem)
                ∷ case f3_remu (known remu)
                ∷ [])
              undefined)
        ∷ [])
      undefined
