-- ===== src/Instr/Xtinst.antt =====
-- instr.cpp: `get_xtinst`, the word of a load or store as a trap handler is shown it.
use rvvp.Base.{ℕ, Bool, false, ◌==◌, ◌||◌, if◌then◌else◌, List, [], ◌∷◌}
use rvvp.Instr.Parts.{
  op_lb, f3_lb, f3_lh, f3_lw, f3_lbu, f3_lhu, f3_lwu, f3_ld, op_flw, f3_flw, f3_fld, op_sb, f3_sb,
  f3_sh, f3_sw, f3_sd, op_fsw, f3_fsw, f3_fsd, op_amo, f5_lr_w, f5_sc_w, f5_amoswap_w, f5_amoadd_w,
  f5_amoxor_w, f5_amoand_w, f5_amoor_w, f5_amomin_w, f5_amomax_w, f5_amominu_w, f5_amomaxu_w,
  op_ecall, f3_hv, f7_hlvb, rs2_hlvb, rs2_hlvbu, f7_hlvh, rs2_hlvh, rs2_hlvhu, rs2_hlvxhu, f7_hlvw,
  rs2_hlvw, rs2_hlvxwu, f7_hsvb, f7_hsvh, f7_hsvw,
}
use rvvp.Instr.Fields.{
  opcode, funct3, funct5, funct7, rs2, set_xtinst_for_opld, set_xtinst_for_opst,
  inst_set_addr_offs_to_zero,
}

-- The labels of a `switch` that share a body.
unfoldable one_of : ℕ → List ℕ → Bool
one_of n [] = false
one_of n (label ∷ labels) = n == label || one_of n labels

-- The virtual-machine loads and stores.
unfoldable xtinst_hv : ℕ → ℕ
unfolding one_of
xtinst_hv instr =
    if funct7 instr == f7_hlvb
    then if one_of (rs2 instr) (rs2_hlvb ∷ rs2_hlvbu ∷ [])
      then inst_set_addr_offs_to_zero instr
      else 0
    else if funct7 instr == f7_hlvh
    then if one_of (rs2 instr) (rs2_hlvh ∷ rs2_hlvhu ∷ rs2_hlvxhu ∷ [])
      then inst_set_addr_offs_to_zero instr
      else 0
    else if funct7 instr == f7_hlvw
    then if one_of (rs2 instr) (rs2_hlvw ∷ rs2_hlvxwu ∷ [])
      then inst_set_addr_offs_to_zero instr
      else 0
    else if one_of (funct7 instr) (f7_hsvb ∷ f7_hsvh ∷ f7_hsvw ∷ [])
    then inst_set_addr_offs_to_zero instr
    else 0

unfoldable pub get_xtinst : ℕ → ℕ
unfolding one_of xtinst_hv
get_xtinst instr =
    if opcode instr == op_lb
    then if one_of (funct3 instr) (f3_lb ∷ f3_lh ∷ f3_lw ∷ f3_lbu ∷ f3_lhu ∷ f3_lwu ∷ f3_ld ∷ [])
      then set_xtinst_for_opld instr
      else 0
    else if opcode instr == op_flw
    then if one_of (funct3 instr) (f3_flw ∷ f3_fld ∷ []) then set_xtinst_for_opld instr else 0
    else if opcode instr == op_sb
    then if one_of (funct3 instr) (f3_sb ∷ f3_sh ∷ f3_sw ∷ f3_sd ∷ [])
      then set_xtinst_for_opst instr
      else 0
    else if opcode instr == op_fsw
    then if one_of (funct3 instr) (f3_fsw ∷ f3_fsd ∷ []) then set_xtinst_for_opst instr else 0
    else if opcode instr == op_amo
    then if one_of (funct5 instr) (
        f5_lr_w ∷ f5_sc_w ∷ f5_amoswap_w ∷ f5_amoadd_w ∷ f5_amoxor_w ∷ f5_amoand_w ∷ f5_amoor_w
        ∷ f5_amomin_w ∷ f5_amomax_w ∷ f5_amominu_w ∷ f5_amomaxu_w ∷ [])
      then inst_set_addr_offs_to_zero instr
      else 0
    else if opcode instr == op_ecall
    then if funct3 instr == f3_hv then xtinst_hv instr else 0
    else 0
