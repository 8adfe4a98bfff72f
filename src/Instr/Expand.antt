-- ===== src/Instr/Expand.antt =====
-- instr.cpp: `expand_compressed` and `decode_and_expand_compressed`. The result is the word of the
-- `Instruction` afterwards and the mapping that is returned; an exception is `none`.
use rvvp.Base.{ℕ, Option, none, some, ◌==◌, ◌&&◌, ltb, if◌then◌else◌}
use rvvp.Instr.Mapping.{
  Mapping, undef, add, addi, addiw, addw, and, andi, beq, bne, ebreak, fld, flw, fsd, fsw, jal,
  jalr, ld, lui, lw, or, sd, slli, srai, srli, sub, subw, sw, xor,
}
use rvvp.Instr.Tree.{Architecture, is_rv32}
use rvvp.Instr.Fields.{c_rd, c_rd_small, c_rs2, c_rs2_small, c_imm, c_uimm}
use rvvp.Instr.Immediates.{
  c_addi4spn_nzuimm, c_lw_uimm, c_ld_uimm, c_sw_uimm, c_sd_uimm, c_jal_imm, c_addi16sp_nzimm,
  c_lui_nzimm, c_j_imm, c_branch_imm, c_lwsp_uimm, c_swsp_uimm, c_ldsp_uimm, c_sdsp_uimm,
}
use rvvp.Instr.Factory
use rvvp.Instr.Compressed.{
  Compressed, decode_compressed, c_illegal, c_reserved, c_addi4spn, c_fld, c_lq, c_lw, c_flw, c_ld,
  c_fsd, c_sq, c_sw, c_fsw, c_sd, c_nop, c_addi, c_jal, c_addiw, c_li, c_addi16sp, c_lui, c_srli,
  c_srai, c_andi, c_sub, c_xor, c_or, c_and, c_subw, c_addw, c_j, c_beqz, c_bnez, c_slli, c_fldsp,
  c_lqsp, c_lwsp, c_flwsp, c_ldsp, c_jr, c_mv, c_ebreak, c_jalr, c_add, c_fsdsp, c_sqsp, c_swsp,
  c_fswsp, c_sdsp,
}

-- The cases, in the order of the source; the last of it, an exception, is behind all of them.
unfoldable pub expand_compressed : ℕ → Compressed → Architecture → ℕ × Mapping
expand_compressed instr c_illegal arch = (instr, undef)
expand_compressed instr c_lq arch = (instr, undef)
expand_compressed instr c_lqsp arch = (instr, undef)
expand_compressed instr c_sq arch = (instr, undef)
expand_compressed instr c_sqsp arch = (instr, undef)
expand_compressed instr c_reserved arch = (instr, undef)
expand_compressed instr c_nop arch = (Factory.add 0 0 0, add)
expand_compressed instr c_add arch = (Factory.add (c_rd instr) (c_rd instr) (c_rs2 instr), add)
expand_compressed instr c_mv arch = (Factory.add (c_rd instr) 0 (c_rs2 instr), add)
expand_compressed instr c_and arch =
    (Factory.and (c_rd_small instr) (c_rd_small instr) (c_rs2_small instr), and)
expand_compressed instr c_or arch =
    (Factory.or (c_rd_small instr) (c_rd_small instr) (c_rs2_small instr), or)
expand_compressed instr c_xor arch =
    (Factory.xor (c_rd_small instr) (c_rd_small instr) (c_rs2_small instr), xor)
expand_compressed instr c_sub arch =
    (Factory.sub (c_rd_small instr) (c_rd_small instr) (c_rs2_small instr), sub)
expand_compressed instr c_addw arch =
    (Factory.addw (c_rd_small instr) (c_rd_small instr) (c_rs2_small instr), addw)
expand_compressed instr c_subw arch =
    (Factory.subw (c_rd_small instr) (c_rd_small instr) (c_rs2_small instr), subw)
expand_compressed instr c_lw arch =
    (Factory.lw (c_rs2_small instr) (c_rd_small instr) (c_lw_uimm instr), lw)
expand_compressed instr c_ld arch =
    (Factory.ld (c_rs2_small instr) (c_rd_small instr) (c_ld_uimm instr), ld)
expand_compressed instr c_flw arch =
    (Factory.flw (c_rs2_small instr) (c_rd_small instr) (c_lw_uimm instr), flw)
expand_compressed instr c_fld arch =
    (Factory.fld (c_rs2_small instr) (c_rd_small instr) (c_ld_uimm instr), fld)
expand_compressed instr c_sw arch =
    (Factory.sw (c_rd_small instr) (c_rs2_small instr) (c_sw_uimm instr), sw)
expand_compressed instr c_sd arch =
    (Factory.sd (c_rd_small instr) (c_rs2_small instr) (c_sd_uimm instr), sd)
expand_compressed instr c_fsw arch =
    (Factory.fsw (c_rd_small instr) (c_rs2_small instr) (c_sw_uimm instr), fsw)
expand_compressed instr c_fsd arch =
    (Factory.fsd (c_rd_small instr) (c_rs2_small instr) (c_sd_uimm instr), fsd)
expand_compressed instr c_addi4spn arch =
    if c_addi4spn_nzuimm instr == 0
    then (instr, undef)
    else (Factory.addi (c_rs2_small instr) 2 (c_addi4spn_nzuimm instr), addi)
expand_compressed instr c_addi arch = (Factory.addi (c_rd instr) (c_rd instr) (c_imm instr), addi)
expand_compressed instr c_jal arch = (Factory.jal 1 (c_jal_imm instr), jal)
expand_compressed instr c_addiw arch =
    if c_rd instr == 0
    then (instr, undef)
    else (Factory.addi (c_rd instr) (c_rd instr) (c_imm instr), addiw)
expand_compressed instr c_li arch = (Factory.addi (c_rd instr) 0 (c_imm instr), addi)
expand_compressed instr c_addi16sp arch =
    if c_addi16sp_nzimm instr == 0
    then (instr, undef)
    else (Factory.addi 2 2 (c_addi16sp_nzimm instr), addi)
expand_compressed instr c_lui arch =
    if c_lui_nzimm instr == 0
    then (instr, undef)
    else (Factory.lui (c_rd instr) (c_lui_nzimm instr), lui)
expand_compressed instr c_slli arch =
    if is_rv32 arch && ltb 31 (c_uimm instr)
    then (instr, undef)
    else (Factory.slli (c_rd instr) (c_rd instr) (c_uimm instr), slli)
expand_compressed instr c_srli arch =
    if is_rv32 arch && ltb 31 (c_uimm instr)
    then (instr, undef)
    else (Factory.srli (c_rd_small instr) (c_rd_small instr) (c_uimm instr), srli)
expand_compressed instr c_srai arch =
    if is_rv32 arch && ltb 31 (c_uimm instr)
    then (instr, undef)
    else (Factory.srai (c_rd_small instr) (c_rd_small instr) (c_uimm instr), srai)
expand_compressed instr c_andi arch =
    (Factory.andi (c_rd_small instr) (c_rd_small instr) (c_imm instr), andi)
expand_compressed instr c_j arch = (Factory.jal 0 (c_j_imm instr), jal)
expand_compressed instr c_beqz arch = (Factory.beq (c_rd_small instr) 0 (c_branch_imm instr), beq)
expand_compressed instr c_bnez arch = (Factory.bne (c_rd_small instr) 0 (c_branch_imm instr), bne)
expand_compressed instr c_lwsp arch =
    if c_rd instr == 0 then (instr, undef) else (Factory.lw (c_rd instr) 2 (c_lwsp_uimm instr), lw)
expand_compressed instr c_ldsp arch =
    if c_rd instr == 0 then (instr, undef) else (Factory.ld (c_rd instr) 2 (c_ldsp_uimm instr), ld)
expand_compressed instr c_flwsp arch = (Factory.flw (c_rd instr) 2 (c_lwsp_uimm instr), flw)
expand_compressed instr c_fldsp arch = (Factory.fld (c_rd instr) 2 (c_ldsp_uimm instr), fld)
expand_compressed instr c_swsp arch = (Factory.sw 2 (c_rs2 instr) (c_swsp_uimm instr), sw)
expand_compressed instr c_sdsp arch = (Factory.sd 2 (c_rs2 instr) (c_sdsp_uimm instr), sd)
expand_compressed instr c_fswsp arch = (Factory.fsw 2 (c_rs2 instr) (c_swsp_uimm instr), fsw)
expand_compressed instr c_fsdsp arch = (Factory.fsd 2 (c_rs2 instr) (c_sdsp_uimm instr), fsd)
expand_compressed instr c_ebreak arch = (Factory.ebreak, ebreak)
expand_compressed instr c_jr arch =
    if c_rd instr == 0 then (instr, undef) else (Factory.jalr 0 (c_rd instr) 0, jalr)
expand_compressed instr c_jalr arch = (Factory.jalr 1 (c_rd instr) 0, jalr)

unfoldable pub decode_and_expand_compressed : Architecture → ℕ → Option (ℕ × Mapping)
decode_and_expand_compressed arch instr = elim (decode_compressed instr arch) [
  | none ↦ none
  | some op ↦ some (expand_compressed instr op arch)
]
