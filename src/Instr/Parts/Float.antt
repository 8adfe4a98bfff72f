-- ===== src/Instr/Parts/Float.antt =====
-- instr.h: `enum Parts`, those of floating point.
use rvvp.Base.{ℕ}

abbrev pub op_fmadd_s : ℕ
op_fmadd_s = 0b1000011

abbrev pub f2_fmadd_s : ℕ
f2_fmadd_s = 0b00

abbrev pub f2_fmadd_d : ℕ
f2_fmadd_d = 0b01

abbrev pub op_fadd_s : ℕ
op_fadd_s = 0b1010011

abbrev pub f7_fadd_s : ℕ
f7_fadd_s = 0b0000000

abbrev pub f7_fadd_d : ℕ
f7_fadd_d = 0b0000001

abbrev pub f7_fsub_s : ℕ
f7_fsub_s = 0b0000100

abbrev pub f7_fsub_d : ℕ
f7_fsub_d = 0b0000101

abbrev pub f7_fcvt_d_s : ℕ
f7_fcvt_d_s = 0b0100001

abbrev pub f7_fmul_s : ℕ
f7_fmul_s = 0b0001000

abbrev pub f7_fmul_d : ℕ
f7_fmul_d = 0b0001001

abbrev pub f7_fdiv_s : ℕ
f7_fdiv_s = 0b0001100

abbrev pub f7_fdiv_d : ℕ
f7_fdiv_d = 0b0001101

abbrev pub f7_fle_s : ℕ
f7_fle_s = 0b1010000

abbrev pub f3_fle_s : ℕ
f3_fle_s = 0b000

abbrev pub f3_flt_s : ℕ
f3_flt_s = 0b001

abbrev pub f3_feq_s : ℕ
f3_feq_s = 0b010

abbrev pub f7_fsgnj_d : ℕ
f7_fsgnj_d = 0b0010001

abbrev pub f3_fsgnj_d : ℕ
f3_fsgnj_d = 0b000

abbrev pub f3_fsgnjn_d : ℕ
f3_fsgnjn_d = 0b001

abbrev pub f3_fsgnjx_d : ℕ
f3_fsgnjx_d = 0b010

abbrev pub f7_fmin_s : ℕ
f7_fmin_s = 0b0010100

abbrev pub f3_fmin_s : ℕ
f3_fmin_s = 0b000

abbrev pub f3_fmax_s : ℕ
f3_fmax_s = 0b001

abbrev pub f7_fmin_d : ℕ
f7_fmin_d = 0b0010101

abbrev pub f3_fmin_d : ℕ
f3_fmin_d = 0b000

abbrev pub f3_fmax_d : ℕ
f3_fmax_d = 0b001

abbrev pub f7_fcvt_s_d : ℕ
f7_fcvt_s_d = 0b0100000

abbrev pub f7_fsgnj_s : ℕ
f7_fsgnj_s = 0b0010000

abbrev pub f3_fsgnj_s : ℕ
f3_fsgnj_s = 0b000

abbrev pub f3_fsgnjn_s : ℕ
f3_fsgnjn_s = 0b001

abbrev pub f3_fsgnjx_s : ℕ
f3_fsgnjx_s = 0b010

abbrev pub f7_fle_d : ℕ
f7_fle_d = 0b1010001

abbrev pub f3_fle_d : ℕ
f3_fle_d = 0b000

abbrev pub f3_flt_d : ℕ
f3_flt_d = 0b001

abbrev pub f3_feq_d : ℕ
f3_feq_d = 0b010

abbrev pub f7_fcvt_s_w : ℕ
f7_fcvt_s_w = 0b1101000

abbrev pub rs2_fcvt_s_w : ℕ
rs2_fcvt_s_w = 0b00000

abbrev pub rs2_fcvt_s_wu : ℕ
rs2_fcvt_s_wu = 0b00001

abbrev pub rs2_fcvt_s_l : ℕ
rs2_fcvt_s_l = 0b00010

abbrev pub rs2_fcvt_s_lu : ℕ
rs2_fcvt_s_lu = 0b00011

abbrev pub f7_fcvt_d_w : ℕ
f7_fcvt_d_w = 0b1101001

abbrev pub rs2_fcvt_d_w : ℕ
rs2_fcvt_d_w = 0b00000

abbrev pub rs2_fcvt_d_wu : ℕ
rs2_fcvt_d_wu = 0b00001

abbrev pub rs2_fcvt_d_l : ℕ
rs2_fcvt_d_l = 0b00010

abbrev pub rs2_fcvt_d_lu : ℕ
rs2_fcvt_d_lu = 0b00011

abbrev pub f7_fcvt_w_d : ℕ
f7_fcvt_w_d = 0b1100001

abbrev pub rs2_fcvt_w_d : ℕ
rs2_fcvt_w_d = 0b00000

abbrev pub rs2_fcvt_wu_d : ℕ
rs2_fcvt_wu_d = 0b00001

abbrev pub rs2_fcvt_l_d : ℕ
rs2_fcvt_l_d = 0b00010

abbrev pub rs2_fcvt_lu_d : ℕ
rs2_fcvt_lu_d = 0b00011

abbrev pub f7_fsqrt_s : ℕ
f7_fsqrt_s = 0b0101100

abbrev pub f7_fsqrt_d : ℕ
f7_fsqrt_d = 0b0101101

abbrev pub f7_fcvt_w_s : ℕ
f7_fcvt_w_s = 0b1100000

abbrev pub rs2_fcvt_w_s : ℕ
rs2_fcvt_w_s = 0b00000

abbrev pub rs2_fcvt_wu_s : ℕ
rs2_fcvt_wu_s = 0b00001

abbrev pub rs2_fcvt_l_s : ℕ
rs2_fcvt_l_s = 0b00010

abbrev pub rs2_fcvt_lu_s : ℕ
rs2_fcvt_lu_s = 0b00011

abbrev pub f7_fmv_x_w : ℕ
f7_fmv_x_w = 0b1110000

abbrev pub f3_fmv_x_w : ℕ
f3_fmv_x_w = 0b000

abbrev pub f3_fclass_s : ℕ
f3_fclass_s = 0b001

abbrev pub f7_fmv_x_d : ℕ
f7_fmv_x_d = 0b1110001

abbrev pub f3_fmv_x_d : ℕ
f3_fmv_x_d = 0b000

abbrev pub f3_fclass_d : ℕ
f3_fclass_d = 0b001

abbrev pub f7_fmv_w_x : ℕ
f7_fmv_w_x = 0b1111000

abbrev pub f7_fmv_d_x : ℕ
f7_fmv_d_x = 0b1111001

abbrev pub op_flw : ℕ
op_flw = 0b0000111

abbrev pub f3_flw : ℕ
f3_flw = 0b010

abbrev pub f3_fld : ℕ
f3_fld = 0b011

abbrev pub op_fsw : ℕ
op_fsw = 0b0100111

abbrev pub f3_fsw : ℕ
f3_fsw = 0b010

abbrev pub f3_fsd : ℕ
f3_fsd = 0b011

abbrev pub op_fmsub_s : ℕ
op_fmsub_s = 0b1000111

abbrev pub f2_fmsub_s : ℕ
f2_fmsub_s = 0b00

abbrev pub f2_fmsub_d : ℕ
f2_fmsub_d = 0b01

abbrev pub op_fnmsub_s : ℕ
op_fnmsub_s = 0b1001011

abbrev pub f2_fnmsub_s : ℕ
f2_fnmsub_s = 0b00

abbrev pub f2_fnmsub_d : ℕ
f2_fnmsub_d = 0b01

abbrev pub op_fnmadd_s : ℕ
op_fnmadd_s = 0b1001111

abbrev pub f2_fnmadd_s : ℕ
f2_fnmadd_s = 0b00

abbrev pub f2_fnmadd_d : ℕ
f2_fnmadd_d = 0b01
