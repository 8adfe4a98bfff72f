-- ===== src/Instr/Decode/Float.antt =====
-- instr.cpp: `decode_normal`, the cases of floating point.
use rvvp.Base.{[], ◌∷◌}
use rvvp.Instr.Mapping.{
  flw, fsw, fmadd_s, fmsub_s, fnmadd_s, fnmsub_s, fadd_s, fsub_s, fmul_s, fdiv_s, fsqrt_s, fsgnj_s,
  fsgnjn_s, fsgnjx_s, fmin_s, fmax_s, fcvt_w_s, fcvt_wu_s, fmv_x_w, feq_s, flt_s, fle_s, fclass_s,
  fcvt_s_w, fcvt_s_wu, fmv_w_x, fcvt_l_s, fcvt_lu_s, fcvt_s_l, fcvt_s_lu, fld, fsd, fmadd_d,
  fmsub_d, fnmsub_d, fnmadd_d, fadd_d, fsub_d, fmul_d, fdiv_d, fsqrt_d, fsgnj_d, fsgnjn_d, fsgnjx_d,
  fmin_d, fmax_d, fcvt_s_d, fcvt_d_s, feq_d, flt_d, fle_d, fclass_d, fcvt_w_d, fcvt_wu_d, fcvt_d_w,
  fcvt_d_wu, fcvt_l_d, fcvt_lu_d, fmv_x_d, fcvt_d_l, fcvt_d_lu, fmv_d_x,
}
use rvvp.Instr.Parts.{
  f2_fmadd_s, f2_fmadd_d, f7_fadd_s, f7_fadd_d, f7_fsub_s, f7_fsub_d, f7_fcvt_d_s, f7_fmul_s,
  f7_fmul_d, f7_fdiv_s, f7_fdiv_d, f7_fle_s, f3_fle_s, f3_flt_s, f3_feq_s, f7_fsgnj_d, f3_fsgnj_d,
  f3_fsgnjn_d, f3_fsgnjx_d, f7_fmin_s, f3_fmin_s, f3_fmax_s, f7_fmin_d, f3_fmin_d, f3_fmax_d,
  f7_fcvt_s_d, f7_fsgnj_s, f3_fsgnj_s, f3_fsgnjn_s, f3_fsgnjx_s, f7_fle_d, f3_fle_d, f3_flt_d,
  f3_feq_d, f7_fcvt_s_w, rs2_fcvt_s_w, rs2_fcvt_s_wu, rs2_fcvt_s_l, rs2_fcvt_s_lu, f7_fcvt_d_w,
  rs2_fcvt_d_w, rs2_fcvt_d_wu, rs2_fcvt_d_l, rs2_fcvt_d_lu, f7_fcvt_w_d, rs2_fcvt_w_d,
  rs2_fcvt_wu_d, rs2_fcvt_l_d, rs2_fcvt_lu_d, f7_fsqrt_s, f7_fsqrt_d, f7_fcvt_w_s, rs2_fcvt_w_s,
  rs2_fcvt_wu_s, rs2_fcvt_l_s, rs2_fcvt_lu_s, f7_fmv_x_w, f3_fmv_x_w, f3_fclass_s, f7_fmv_x_d,
  f3_fmv_x_d, f3_fclass_d, f7_fmv_w_x, f7_fmv_d_x, f3_flw, f3_fld, f3_fsw, f3_fsd, f2_fmsub_s,
  f2_fmsub_d, f2_fnmsub_s, f2_fnmsub_d, f2_fnmadd_s, f2_fnmadd_d,
}
use rvvp.Instr.Tree.{Tree, known, undefined, case, switch, f_funct2, f_funct3, f_funct7, f_rs2}

abbrev pub decode_op_fmadd_s : Tree
decode_op_fmadd_s =
    switch f_funct2 (case f2_fmadd_s (known fmadd_s) ∷ case f2_fmadd_d (known fmadd_d) ∷ [])
      undefined

abbrev pub decode_f7_fle_s : Tree
decode_f7_fle_s =
    switch f_funct3
      (case f3_fle_s (known fle_s) ∷ case f3_flt_s (known flt_s) ∷ case f3_feq_s (known feq_s) ∷ [])
      undefined

abbrev pub decode_f7_fsgnj_d : Tree
decode_f7_fsgnj_d =
    switch f_funct3
      (case f3_fsgnj_d (known fsgnj_d)
        ∷ case f3_fsgnjn_d (known fsgnjn_d)
        ∷ case f3_fsgnjx_d (known fsgnjx_d)
        ∷ [])
      undefined

abbrev pub decode_f7_fmin_s : Tree
decode_f7_fmin_s =
    switch f_funct3 (case f3_fmin_s (known fmin_s) ∷ case f3_fmax_s (known fmax_s) ∷ []) undefined

abbrev pub decode_f7_fmin_d : Tree
decode_f7_fmin_d =
    switch f_funct3 (case f3_fmin_d (known fmin_d) ∷ case f3_fmax_d (known fmax_d) ∷ []) undefined

abbrev pub decode_f7_fsgnj_s : Tree
decode_f7_fsgnj_s =
    switch f_funct3
      (case f3_fsgnj_s (known fsgnj_s)
        ∷ case f3_fsgnjn_s (known fsgnjn_s)
        ∷ case f3_fsgnjx_s (known fsgnjx_s)
        ∷ [])
      undefined

abbrev pub decode_f7_fle_d : Tree
decode_f7_fle_d =
    switch f_funct3
      (case f3_fle_d (known fle_d) ∷ case f3_flt_d (known flt_d) ∷ case f3_feq_d (known feq_d) ∷ [])
      undefined

abbrev pub decode_f7_fcvt_s_w : Tree
decode_f7_fcvt_s_w =
    switch f_rs2
      (case rs2_fcvt_s_w (known fcvt_s_w)
        ∷ case rs2_fcvt_s_wu (known fcvt_s_wu)
        ∷ case rs2_fcvt_s_l (known fcvt_s_l)
        ∷ case rs2_fcvt_s_lu (known fcvt_s_lu)
        ∷ [])
      undefined

abbrev pub decode_f7_fcvt_d_w : Tree
decode_f7_fcvt_d_w =
    switch f_rs2
      (case rs2_fcvt_d_w (known fcvt_d_w)
        ∷ case rs2_fcvt_d_wu (known fcvt_d_wu)
        ∷ case rs2_fcvt_d_l (known fcvt_d_l)
        ∷ case rs2_fcvt_d_lu (known fcvt_d_lu)
        ∷ [])
      undefined

abbrev pub decode_f7_fcvt_w_d : Tree
decode_f7_fcvt_w_d =
    switch f_rs2
      (case rs2_fcvt_w_d (known fcvt_w_d)
        ∷ case rs2_fcvt_wu_d (known fcvt_wu_d)
        ∷ case rs2_fcvt_l_d (known fcvt_l_d)
        ∷ case rs2_fcvt_lu_d (known fcvt_lu_d)
        ∷ [])
      undefined

abbrev pub decode_f7_fcvt_w_s : Tree
decode_f7_fcvt_w_s =
    switch f_rs2
      (case rs2_fcvt_w_s (known fcvt_w_s)
        ∷ case rs2_fcvt_wu_s (known fcvt_wu_s)
        ∷ case rs2_fcvt_l_s (known fcvt_l_s)
        ∷ case rs2_fcvt_lu_s (known fcvt_lu_s)
        ∷ [])
      undefined

abbrev pub decode_f7_fmv_x_w : Tree
decode_f7_fmv_x_w =
    switch f_funct3 (case f3_fmv_x_w (known fmv_x_w) ∷ case f3_fclass_s (known fclass_s) ∷ [])
      undefined

abbrev pub decode_f7_fmv_x_d : Tree
decode_f7_fmv_x_d =
    switch f_funct3 (case f3_fmv_x_d (known fmv_x_d) ∷ case f3_fclass_d (known fclass_d) ∷ [])
      undefined

abbrev pub decode_op_fadd_s : Tree
decode_op_fadd_s =
    switch f_funct7
      (case f7_fadd_s (known fadd_s)
        ∷ case f7_fadd_d (known fadd_d)
        ∷ case f7_fsub_s (known fsub_s)
        ∷ case f7_fsub_d (known fsub_d)
        ∷ case f7_fcvt_d_s (known fcvt_d_s)
        ∷ case f7_fmul_s (known fmul_s)
        ∷ case f7_fmul_d (known fmul_d)
        ∷ case f7_fdiv_s (known fdiv_s)
        ∷ case f7_fdiv_d (known fdiv_d)
        ∷ case f7_fle_s decode_f7_fle_s
        ∷ case f7_fsgnj_d decode_f7_fsgnj_d
        ∷ case f7_fmin_s decode_f7_fmin_s
        ∷ case f7_fmin_d decode_f7_fmin_d
        ∷ case f7_fcvt_s_d (known fcvt_s_d)
        ∷ case f7_fsgnj_s decode_f7_fsgnj_s
        ∷ case f7_fle_d decode_f7_fle_d
        ∷ case f7_fcvt_s_w decode_f7_fcvt_s_w
        ∷ case f7_fcvt_d_w decode_f7_fcvt_d_w
        ∷ case f7_fcvt_w_d decode_f7_fcvt_w_d
        ∷ case f7_fsqrt_s (known fsqrt_s)
        ∷ case f7_fsqrt_d (known fsqrt_d)
        ∷ case f7_fcvt_w_s decode_f7_fcvt_w_s
        ∷ case f7_fmv_x_w decode_f7_fmv_x_w
        ∷ case f7_fmv_x_d decode_f7_fmv_x_d
        ∷ case f7_fmv_w_x (known fmv_w_x)
        ∷ case f7_fmv_d_x (known fmv_d_x)
        ∷ [])
      undefined

abbrev pub decode_op_flw : Tree
decode_op_flw = switch f_funct3 (case f3_flw (known flw) ∷ case f3_fld (known fld) ∷ []) undefined

abbrev pub decode_op_fsw : Tree
decode_op_fsw = switch f_funct3 (case f3_fsw (known fsw) ∷ case f3_fsd (known fsd) ∷ []) undefined

abbrev pub decode_op_fmsub_s : Tree
decode_op_fmsub_s =
    switch f_funct2 (case f2_fmsub_s (known fmsub_s) ∷ case f2_fmsub_d (known fmsub_d) ∷ [])
      undefined

abbrev pub decode_op_fnmsub_s : Tree
decode_op_fnmsub_s =
    switch f_funct2 (case f2_fnmsub_s (known fnmsub_s) ∷ case f2_fnmsub_d (known fnmsub_d) ∷ [])
      undefined

abbrev pub decode_op_fnmadd_s : Tree
decode_op_fnmadd_s =
    switch f_funct2 (case f2_fnmadd_s (known fnmadd_s) ∷ case f2_fnmadd_d (known fnmadd_d) ∷ [])
      undefined
