-- ===== src/Instr/Parts/Wide.antt =====
-- instr.h: `enum Parts`, those of virtual machine accesses, atomic memory operations and words.
use rvvp.Base.{ℕ}

abbrev pub f3_csrrwi : ℕ
f3_csrrwi = 0b101

abbrev pub f3_csrrsi : ℕ
f3_csrrsi = 0b110

abbrev pub f3_csrrci : ℕ
f3_csrrci = 0b111

abbrev pub f3_hv : ℕ
f3_hv = 0b100

abbrev pub f7_hlvb : ℕ
f7_hlvb = 0b0110000

abbrev pub rs2_hlvb : ℕ
rs2_hlvb = 0b00000

abbrev pub rs2_hlvbu : ℕ
rs2_hlvbu = 0b00001

abbrev pub f7_hlvh : ℕ
f7_hlvh = 0b0110010

abbrev pub rs2_hlvh : ℕ
rs2_hlvh = 0b00000

abbrev pub rs2_hlvhu : ℕ
rs2_hlvhu = 0b00001

abbrev pub f7_hlvw : ℕ
f7_hlvw = 0b0110100

abbrev pub rs2_hlvw : ℕ
rs2_hlvw = 0b00000

abbrev pub rs2_hlvxhu : ℕ
rs2_hlvxhu = 0b00011

abbrev pub rs2_hlvxwu : ℕ
rs2_hlvxwu = 0b00011

abbrev pub f7_hsvb : ℕ
f7_hsvb = 0b0110001

abbrev pub f7_hsvh : ℕ
f7_hsvh = 0b0110011

abbrev pub f7_hsvw : ℕ
f7_hsvw = 0b0110101

abbrev pub op_amo : ℕ
op_amo = 0b0101111

abbrev pub f5_lr_w : ℕ
f5_lr_w = 0b00010

abbrev pub f5_sc_w : ℕ
f5_sc_w = 0b00011

abbrev pub f5_amoswap_w : ℕ
f5_amoswap_w = 0b00001

abbrev pub f5_amoadd_w : ℕ
f5_amoadd_w = 0b00000

abbrev pub f5_amoxor_w : ℕ
f5_amoxor_w = 0b00100

abbrev pub f5_amoand_w : ℕ
f5_amoand_w = 0b01100

abbrev pub f5_amoor_w : ℕ
f5_amoor_w = 0b01000

abbrev pub f5_amomin_w : ℕ
f5_amomin_w = 0b10000

abbrev pub f5_amomax_w : ℕ
f5_amomax_w = 0b10100

abbrev pub f5_amominu_w : ℕ
f5_amominu_w = 0b11000

abbrev pub f5_amomaxu_w : ℕ
f5_amomaxu_w = 0b11100

abbrev pub f3_amo_d : ℕ
f3_amo_d = 0b011

abbrev pub op_addiw : ℕ
op_addiw = 0b0011011

abbrev pub f3_addiw : ℕ
f3_addiw = 0b000

abbrev pub f3_slliw : ℕ
f3_slliw = 0b001

abbrev pub f3_srliw : ℕ
f3_srliw = 0b101

abbrev pub f7_srliw : ℕ
f7_srliw = 0b0000000

abbrev pub f7_sraiw : ℕ
f7_sraiw = 0b0100000

abbrev pub op_addw : ℕ
op_addw = 0b0111011

abbrev pub f3_addw : ℕ
f3_addw = 0b000

abbrev pub f7_addw : ℕ
f7_addw = 0b0000000

abbrev pub f3_subw : ℕ
f3_subw = 0b000

abbrev pub f7_subw : ℕ
f7_subw = 0b0100000

abbrev pub f3_sllw : ℕ
f3_sllw = 0b001

abbrev pub f3_srlw : ℕ
f3_srlw = 0b101

abbrev pub f3_sraw : ℕ
f3_sraw = 0b101

abbrev pub f7_mulw : ℕ
f7_mulw = 0b0000001

abbrev pub f3_mulw : ℕ
f3_mulw = 0b000

abbrev pub f3_divw : ℕ
f3_divw = 0b100

abbrev pub f3_divuw : ℕ
f3_divuw = 0b101

abbrev pub f3_remw : ℕ
f3_remw = 0b110

abbrev pub f3_remuw : ℕ
f3_remuw = 0b111
