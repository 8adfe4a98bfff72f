-- ===== src/Instr/Mapping.antt =====
-- instr.h: `enum Mapping`, the instructions that the decoder knows, and `enum class Type`, their
-- formats; instr.cpp: `getType`.
pub data Mapping : Type 0 where
  undef lui auipc jal jalr beq bne blt bge bltu bgeu lb lh lw lbu lhu sb sh sw addi : Mapping
  slti sltiu xori ori andi slli srli srai add sub sll slt sltu xor srl sra or and : Mapping
  fence ecall ebreak fence_i csrrw csrrs csrrc csrrwi csrrsi csrrci mul mulh mulhsu : Mapping
  mulhu div divu rem remu lr_w sc_w amoswap_w amoadd_w amoxor_w amoand_w amoor_w : Mapping
  amomin_w amomax_w amominu_w amomaxu_w lwu ld sd addiw slliw srliw sraiw addw subw : Mapping
  sllw srlw sraw mulw divw divuw remw remuw lr_d sc_d amoswap_d amoadd_d amoxor_d : Mapping
  amoand_d amoor_d amomin_d amomax_d amominu_d amomaxu_d flw fsw fmadd_s fmsub_s : Mapping
  fnmadd_s fnmsub_s fadd_s fsub_s fmul_s fdiv_s fsqrt_s fsgnj_s fsgnjn_s fsgnjx_s : Mapping
  fmin_s fmax_s fcvt_w_s fcvt_wu_s fmv_x_w feq_s flt_s fle_s fclass_s fcvt_s_w : Mapping
  fcvt_s_wu fmv_w_x fcvt_l_s fcvt_lu_s fcvt_s_l fcvt_s_lu fld fsd fmadd_d fmsub_d : Mapping
  fnmsub_d fnmadd_d fadd_d fsub_d fmul_d fdiv_d fsqrt_d fsgnj_d fsgnjn_d fsgnjx_d : Mapping
  fmin_d fmax_d fcvt_s_d fcvt_d_s feq_d flt_d fle_d fclass_d fcvt_w_d fcvt_wu_d : Mapping
  fcvt_d_w fcvt_d_wu fcvt_l_d fcvt_lu_d fmv_x_d fcvt_d_l fcvt_d_lu fmv_d_x uret sret : Mapping
  mret wfi sfence_vma hlvb hlvbu hlvh hlvhu hlvw hlvxhu hlvxwu hsvb hsvh hsvw : Mapping

-- The formats.
pub data Format : Type 0 where
  unknown format_r format_i format_s format_b format_u format_j format_r4 format_csr : Format
  format_csri : Format

abbrev pub get_type_other : Mapping → Format
get_type_other jalr = format_i
get_type_other lb = format_i
get_type_other lh = format_i
get_type_other lw = format_i
get_type_other ld = format_i
get_type_other lbu = format_i
get_type_other lhu = format_i
get_type_other lwu = format_i
get_type_other addi = format_i
get_type_other slti = format_i
get_type_other sltiu = format_i
get_type_other xori = format_i
get_type_other ori = format_i
get_type_other andi = format_i
get_type_other addiw = format_i
get_type_other slliw = format_i
get_type_other srliw = format_i
get_type_other sraiw = format_i
get_type_other flw = format_i
get_type_other fld = format_i
get_type_other sb = format_s
get_type_other sh = format_s
get_type_other sw = format_s
get_type_other sd = format_s
get_type_other fsw = format_s
get_type_other fsd = format_s
get_type_other beq = format_b
get_type_other bne = format_b
get_type_other blt = format_b
get_type_other bge = format_b
get_type_other bltu = format_b
get_type_other bgeu = format_b
get_type_other lui = format_u
get_type_other auipc = format_u
get_type_other jal = format_j
get_type_other fmadd_s = format_r4
get_type_other fmsub_s = format_r4
get_type_other fnmsub_s = format_r4
get_type_other fnmadd_s = format_r4
get_type_other fmadd_d = format_r4
get_type_other fmsub_d = format_r4
get_type_other fnmsub_d = format_r4
get_type_other fnmadd_d = format_r4
get_type_other csrrw = format_csr
get_type_other csrrs = format_csr
get_type_other csrrc = format_csr
get_type_other csrrwi = format_csri
get_type_other csrrsi = format_csri
get_type_other csrrci = format_csri
get_type_other _ = unknown

-- `getType`: the cases of format R, and behind them the others.
abbrev pub get_type : Mapping → Format
get_type slli = format_r
get_type srli = format_r
get_type srai = format_r
get_type add = format_r
get_type sub = format_r
get_type sll = format_r
get_type slt = format_r
get_type sltu = format_r
get_type xor = format_r
get_type srl = format_r
get_type sra = format_r
get_type or = format_r
get_type and = format_r
get_type mul = format_r
get_type mulh = format_r
get_type mulhsu = format_r
get_type mulhu = format_r
get_type div = format_r
get_type divu = format_r
get_type rem = format_r
get_type remu = format_r
get_type addw = format_r
get_type subw = format_r
get_type sllw = format_r
get_type srlw = format_r
get_type sraw = format_r
get_type mulw = format_r
get_type divw = format_r
get_type divuw = format_r
get_type remw = format_r
get_type remuw = format_r
get_type lr_w = format_r
get_type sc_w = format_r
get_type amoswap_w = format_r
get_type amoadd_w = format_r
get_type amoxor_w = format_r
get_type amoand_w = format_r
get_type amoor_w = format_r
get_type amomin_w = format_r
get_type amomax_w = format_r
get_type amominu_w = format_r
get_type amomaxu_w = format_r
get_type lr_d = format_r
get_type sc_d = format_r
get_type amoswap_d = format_r
get_type amoadd_d = format_r
get_type amoxor_d = format_r
get_type amoand_d = format_r
get_type amoor_d = format_r
get_type amomin_d = format_r
get_type amomax_d = format_r
get_type amominu_d = format_r
get_type amomaxu_d = format_r
get_type fadd_s = format_r
get_type fsub_s = format_r
get_type fmul_s = format_r
get_type fdiv_s = format_r
get_type fsqrt_s = format_r
get_type fsgnj_s = format_r
get_type fsgnjn_s = format_r
get_type fsgnjx_s = format_r
get_type fmin_s = format_r
get_type fmax_s = format_r
get_type fcvt_w_s = format_r
get_type fcvt_wu_s = format_r
get_type fmv_x_w = format_r
get_type feq_s = format_r
get_type flt_s = format_r
get_type fle_s = format_r
get_type fclass_s = format_r
get_type fcvt_s_w = format_r
get_type fcvt_s_wu = format_r
get_type fmv_w_x = format_r
get_type fcvt_l_s = format_r
get_type fcvt_lu_s = format_r
get_type fcvt_s_l = format_r
get_type fcvt_s_lu = format_r
get_type fadd_d = format_r
get_type fsub_d = format_r
get_type fmul_d = format_r
get_type fdiv_d = format_r
get_type fsqrt_d = format_r
get_type fsgnj_d = format_r
get_type fsgnjn_d = format_r
get_type fsgnjx_d = format_r
get_type fmin_d = format_r
get_type fmax_d = format_r
get_type fcvt_s_d = format_r
get_type fcvt_d_s = format_r
get_type feq_d = format_r
get_type flt_d = format_r
get_type fle_d = format_r
get_type fclass_d = format_r
get_type fcvt_w_d = format_r
get_type fcvt_wu_d = format_r
get_type fcvt_d_w = format_r
get_type fcvt_d_wu = format_r
get_type fcvt_l_d = format_r
get_type fcvt_lu_d = format_r
get_type fmv_x_d = format_r
get_type fcvt_d_l = format_r
get_type fcvt_d_lu = format_r
get_type fmv_d_x = format_r
get_type m = get_type_other m
