-- ===== src/Instr/Decode/System.antt =====
-- instr.cpp: `decode_normal`, the cases of fences, system instructions and atomic memory operations.
use rvvp.Base.{[], ◌∷◌}
use rvvp.Instr.Mapping.{
  fence, ecall, ebreak, fence_i, csrrw, csrrs, csrrc, csrrwi, csrrsi, csrrci, lr_w, sc_w, amoswap_w,
  amoadd_w, amoxor_w, amoand_w, amoor_w, amomin_w, amomax_w, amominu_w, amomaxu_w, addw, subw, sllw,
  srlw, sraw, mulw, divw, divuw, remw, remuw, lr_d, sc_d, amoswap_d, amoadd_d, amoxor_d, amoand_d,
  amoor_d, amomin_d, amomax_d, amominu_d, amomaxu_d, uret, sret, mret, wfi, sfence_vma, hlvb, hlvbu,
  hlvh, hlvhu, hlvw, hlvxhu, hlvxwu, hsvb, hsvh, hsvw,
}
use rvvp.Instr.Parts.{
  f3_fence, f3_fence_i, f3_sys, f12_ecall, f12_ebreak, f12_uret, f12_sret, f12_mret, f12_wfi,
  f3_csrrw, f3_csrrs, f3_csrrc, f3_csrrwi, f3_csrrsi, f3_csrrci, f3_hv, f7_hlvb, rs2_hlvb,
  rs2_hlvbu, f7_hlvh, rs2_hlvh, rs2_hlvhu, f7_hlvw, rs2_hlvw, rs2_hlvxhu, rs2_hlvxwu, f7_hsvb,
  f7_hsvh, f7_hsvw, f5_lr_w, f5_sc_w, f5_amoswap_w, f5_amoadd_w, f5_amoxor_w, f5_amoand_w,
  f5_amoor_w, f5_amomin_w, f5_amomax_w, f5_amominu_w, f5_amomaxu_w, f3_amo_d, f3_addw, f7_addw,
  f3_subw, f7_subw, f3_sllw, f3_srlw, f3_sraw, f7_mulw, f3_mulw, f3_divw, f3_divuw, f3_remw,
  f3_remuw,
}
use rvvp.Instr.Tree.{
  Tree, known, test, undefined, case, switch, f_funct3, f_funct5, f_funct7, f_funct12, f_rs2,
}

abbrev pub decode_op_addw : Tree
decode_op_addw =
    switch f_funct7
      (case f7_addw (
          switch f_funct3
            (case f3_addw (known addw) ∷ case f3_sllw (known sllw) ∷ case f3_srlw (known srlw) ∷ [])
            undefined)
        ∷ case f7_subw
            (switch f_funct3 (case f3_subw (known subw) ∷ case f3_sraw (known sraw) ∷ []) undefined)
        ∷ case f7_mulw (
            switch f_funct3
              (case f3_mulw (known mulw)
                ∷ case f3_divw (known divw)
                ∷ case f3_divuw (known divuw)
                ∷ case f3_remw (known remw)
                ∷ case f3_remuw (known remuw)
                ∷ [])
              undefined)
        ∷ [])
      undefined

abbrev pub decode_op_fence : Tree
decode_op_fence =
    switch f_funct3 (case f3_fence (known fence) ∷ case f3_fence_i (known fence_i) ∷ []) undefined

abbrev pub decode_op_ecall : Tree
decode_op_ecall =
    switch f_funct3
      (case f3_sys (
          switch f_funct12
            (case f12_ecall (known ecall)
              ∷ case f12_ebreak (known ebreak)
              ∷ case f12_uret (known uret)
              ∷ case f12_sret (known sret)
              ∷ case f12_mret (known mret)
              ∷ case f12_wfi (known wfi)
              ∷ [])
            (known sfence_vma))
        ∷ case f3_csrrw (known csrrw)
        ∷ case f3_csrrs (known csrrs)
        ∷ case f3_csrrc (known csrrc)
        ∷ case f3_csrrwi (known csrrwi)
        ∷ case f3_csrrsi (known csrrsi)
        ∷ case f3_csrrci (known csrrci)
        ∷ case f3_hv (
            switch f_funct7
              (case f7_hlvb (
                  switch f_rs2 (case rs2_hlvb (known hlvb) ∷ case rs2_hlvbu (known hlvbu) ∷ [])
                    undefined)
                ∷ case f7_hlvh (
                    switch f_rs2
                      (case rs2_hlvh (known hlvh)
                        ∷ case rs2_hlvhu (known hlvhu)
                        ∷ case rs2_hlvxhu (known hlvxhu)
                        ∷ [])
                      undefined)
                ∷ case f7_hlvw (
                    switch f_rs2 (case rs2_hlvw (known hlvw) ∷ case rs2_hlvxwu (known hlvxwu) ∷ [])
                      undefined)
                ∷ case f7_hsvb (known hsvb)
                ∷ case f7_hsvh (known hsvh)
                ∷ case f7_hsvw (known hsvw)
                ∷ [])
              undefined)
        ∷ [])
      undefined

abbrev pub decode_op_amo : Tree
decode_op_amo =
    switch f_funct5
      (case f5_lr_w (test f_funct3 f3_amo_d (known lr_d) (known lr_w))
        ∷ case f5_sc_w (test f_funct3 f3_amo_d (known sc_d) (known sc_w))
        ∷ case f5_amoswap_w (test f_funct3 f3_amo_d (known amoswap_d) (known amoswap_w))
        ∷ case f5_amoadd_w (test f_funct3 f3_amo_d (known amoadd_d) (known amoadd_w))
        ∷ case f5_amoxor_w (test f_funct3 f3_amo_d (known amoxor_d) (known amoxor_w))
        ∷ case f5_amoand_w (test f_funct3 f3_amo_d (known amoand_d) (known amoand_w))
        ∷ case f5_amoor_w (test f_funct3 f3_amo_d (known amoor_d) (known amoor_w))
        ∷ case f5_amomin_w (test f_funct3 f3_amo_d (known amomin_d) (known amomin_w))
        ∷ case f5_amomax_w (test f_funct3 f3_amo_d (known amomax_d) (known amomax_w))
        ∷ case f5_amominu_w (test f_funct3 f3_amo_d (known amominu_d) (known amominu_w))
        ∷ case f5_amomaxu_w (test f_funct3 f3_amo_d (known amomaxu_d) (known amomaxu_w))
        ∷ [])
      undefined
