-- ===== src/Instr/Index.antt =====
-- instr.h: the value of each `Mapping`, as the enum numbers them.
use rvvp.Base.{ℕ, zero, suc, ◌<◌, ◌≡◌, List, [], ◌∷◌, arith}
use rvvp.Instr.Mapping.{
  Mapping, undef, lui, auipc, jal, jalr, beq, bne, blt, bge, bltu, bgeu, lb, lh, lw, lbu, lhu, sb,
  sh, sw, addi, slti, sltiu, xori, ori, andi, slli, srli, srai, add, sub, sll, slt, sltu, xor, srl,
  sra, or, and, fence, ecall, ebreak, fence_i, csrrw, csrrs, csrrc, csrrwi, csrrsi, csrrci, mul,
  mulh, mulhsu, mulhu, div, divu, rem, remu, lr_w, sc_w, amoswap_w, amoadd_w, amoxor_w, amoand_w,
  amoor_w, amomin_w, amomax_w, amominu_w, amomaxu_w, lwu, ld, sd, addiw, slliw, srliw, sraiw, addw,
  subw, sllw, srlw, sraw, mulw, divw, divuw, remw, remuw, lr_d, sc_d, amoswap_d, amoadd_d, amoxor_d,
  amoand_d, amoor_d, amomin_d, amomax_d, amominu_d, amomaxu_d, flw, fsw, fmadd_s, fmsub_s, fnmadd_s,
  fnmsub_s, fadd_s, fsub_s, fmul_s, fdiv_s, fsqrt_s, fsgnj_s, fsgnjn_s, fsgnjx_s, fmin_s, fmax_s,
  fcvt_w_s, fcvt_wu_s, fmv_x_w, feq_s, flt_s, fle_s, fclass_s, fcvt_s_w, fcvt_s_wu, fmv_w_x,
  fcvt_l_s, fcvt_lu_s, fcvt_s_l, fcvt_s_lu, fld, fsd, fmadd_d, fmsub_d, fnmsub_d, fnmadd_d, fadd_d,
  fsub_d, fmul_d, fdiv_d, fsqrt_d, fsgnj_d, fsgnjn_d, fsgnjx_d, fmin_d, fmax_d, fcvt_s_d, fcvt_d_s,
  feq_d, flt_d, fle_d, fclass_d, fcvt_w_d, fcvt_wu_d, fcvt_d_w, fcvt_d_wu, fcvt_l_d, fcvt_lu_d,
  fmv_x_d, fcvt_d_l, fcvt_d_lu, fmv_d_x, uret, sret, mret, wfi, sfence_vma, hlvb, hlvbu, hlvh,
  hlvhu, hlvw, hlvxhu, hlvxwu, hsvb, hsvh, hsvw,
}

abbrev pub index : Mapping → ℕ
index undef = 0
index lui = 1
index auipc = 2
index jal = 3
index jalr = 4
index beq = 5
index bne = 6
index blt = 7
index bge = 8
index bltu = 9
index bgeu = 10
index lb = 11
index lh = 12
index lw = 13
index lbu = 14
index lhu = 15
index sb = 16
index sh = 17
index sw = 18
index addi = 19
index slti = 20
index sltiu = 21
index xori = 22
index ori = 23
index andi = 24
index slli = 25
index srli = 26
index srai = 27
index add = 28
index sub = 29
index sll = 30
index slt = 31
index sltu = 32
index xor = 33
index srl = 34
index sra = 35
index or = 36
index and = 37
index fence = 38
index ecall = 39
index ebreak = 40
index fence_i = 41
index csrrw = 42
index csrrs = 43
index csrrc = 44
index csrrwi = 45
index csrrsi = 46
index csrrci = 47
index mul = 48
index mulh = 49
index mulhsu = 50
index mulhu = 51
index div = 52
index divu = 53
index rem = 54
index remu = 55
index lr_w = 56
index sc_w = 57
index amoswap_w = 58
index amoadd_w = 59
index amoxor_w = 60
index amoand_w = 61
index amoor_w = 62
index amomin_w = 63
index amomax_w = 64
index amominu_w = 65
index amomaxu_w = 66
index lwu = 67
index ld = 68
index sd = 69
index addiw = 70
index slliw = 71
index srliw = 72
index sraiw = 73
index addw = 74
index subw = 75
index sllw = 76
index srlw = 77
index sraw = 78
index mulw = 79
index divw = 80
index divuw = 81
index remw = 82
index remuw = 83
index lr_d = 84
index sc_d = 85
index amoswap_d = 86
index amoadd_d = 87
index amoxor_d = 88
index amoand_d = 89
index amoor_d = 90
index amomin_d = 91
index amomax_d = 92
index amominu_d = 93
index amomaxu_d = 94
index flw = 95
index fsw = 96
index fmadd_s = 97
index fmsub_s = 98
index fnmadd_s = 99
index fnmsub_s = 100
index fadd_s = 101
index fsub_s = 102
index fmul_s = 103
index fdiv_s = 104
index fsqrt_s = 105
index fsgnj_s = 106
index fsgnjn_s = 107
index fsgnjx_s = 108
index fmin_s = 109
index fmax_s = 110
index fcvt_w_s = 111
index fcvt_wu_s = 112
index fmv_x_w = 113
index feq_s = 114
index flt_s = 115
index fle_s = 116
index fclass_s = 117
index fcvt_s_w = 118
index fcvt_s_wu = 119
index fmv_w_x = 120
index fcvt_l_s = 121
index fcvt_lu_s = 122
index fcvt_s_l = 123
index fcvt_s_lu = 124
index fld = 125
index fsd = 126
index fmadd_d = 127
index fmsub_d = 128
index fnmsub_d = 129
index fnmadd_d = 130
index fadd_d = 131
index fsub_d = 132
index fmul_d = 133
index fdiv_d = 134
index fsqrt_d = 135
index fsgnj_d = 136
index fsgnjn_d = 137
index fsgnjx_d = 138
index fmin_d = 139
index fmax_d = 140
index fcvt_s_d = 141
index fcvt_d_s = 142
index feq_d = 143
index flt_d = 144
index fle_d = 145
index fclass_d = 146
index fcvt_w_d = 147
index fcvt_wu_d = 148
index fcvt_d_w = 149
index fcvt_d_wu = 150
index fcvt_l_d = 151
index fcvt_lu_d = 152
index fmv_x_d = 153
index fcvt_d_l = 154
index fcvt_d_lu = 155
index fmv_d_x = 156
index uret = 157
index sret = 158
index mret = 159
index wfi = 160
index sfence_vma = 161
index hlvb = 162
index hlvbu = 163
index hlvh = 164
index hlvhu = 165
index hlvw = 166
index hlvxhu = 167
index hlvxwu = 168
index hsvb = 169
index hsvh = 170
index hsvw = 171

abbrev pub mappings : List Mapping
mappings =
    undef ∷ lui ∷ auipc ∷ jal ∷ jalr ∷ beq ∷ bne ∷ blt ∷ bge ∷ bltu ∷ bgeu ∷ lb ∷ lh ∷ lw ∷ lbu
    ∷ lhu ∷ sb ∷ sh ∷ sw ∷ addi ∷ slti ∷ sltiu ∷ xori ∷ ori ∷ andi ∷ slli ∷ srli ∷ srai ∷ add ∷ sub
    ∷ sll ∷ slt ∷ sltu ∷ xor ∷ srl ∷ sra ∷ or ∷ and ∷ fence ∷ ecall ∷ ebreak ∷ fence_i ∷ csrrw
    ∷ csrrs ∷ csrrc ∷ csrrwi ∷ csrrsi ∷ csrrci ∷ mul ∷ mulh ∷ mulhsu ∷ mulhu ∷ div ∷ divu ∷ rem
    ∷ remu ∷ lr_w ∷ sc_w ∷ amoswap_w ∷ amoadd_w ∷ amoxor_w ∷ amoand_w ∷ amoor_w ∷ amomin_w
    ∷ amomax_w ∷ amominu_w ∷ amomaxu_w ∷ lwu ∷ ld ∷ sd ∷ addiw ∷ slliw ∷ srliw ∷ sraiw ∷ addw ∷ subw
    ∷ sllw ∷ srlw ∷ sraw ∷ mulw ∷ divw ∷ divuw ∷ remw ∷ remuw ∷ lr_d ∷ sc_d ∷ amoswap_d ∷ amoadd_d
    ∷ amoxor_d ∷ amoand_d ∷ amoor_d ∷ amomin_d ∷ amomax_d ∷ amominu_d ∷ amomaxu_d ∷ flw ∷ fsw
    ∷ fmadd_s ∷ fmsub_s ∷ fnmadd_s ∷ fnmsub_s ∷ fadd_s ∷ fsub_s ∷ fmul_s ∷ fdiv_s ∷ fsqrt_s
    ∷ fsgnj_s ∷ fsgnjn_s ∷ fsgnjx_s ∷ fmin_s ∷ fmax_s ∷ fcvt_w_s ∷ fcvt_wu_s ∷ fmv_x_w ∷ feq_s
    ∷ flt_s ∷ fle_s ∷ fclass_s ∷ fcvt_s_w ∷ fcvt_s_wu ∷ fmv_w_x ∷ fcvt_l_s ∷ fcvt_lu_s ∷ fcvt_s_l
    ∷ fcvt_s_lu ∷ fld ∷ fsd ∷ fmadd_d ∷ fmsub_d ∷ fnmsub_d ∷ fnmadd_d ∷ fadd_d ∷ fsub_d ∷ fmul_d
    ∷ fdiv_d ∷ fsqrt_d ∷ fsgnj_d ∷ fsgnjn_d ∷ fsgnjx_d ∷ fmin_d ∷ fmax_d ∷ fcvt_s_d ∷ fcvt_d_s
    ∷ feq_d ∷ flt_d ∷ fle_d ∷ fclass_d ∷ fcvt_w_d ∷ fcvt_wu_d ∷ fcvt_d_w ∷ fcvt_d_wu ∷ fcvt_l_d
    ∷ fcvt_lu_d ∷ fmv_x_d ∷ fcvt_d_l ∷ fcvt_d_lu ∷ fmv_d_x ∷ uret ∷ sret ∷ mret ∷ wfi ∷ sfence_vma
    ∷ hlvb ∷ hlvbu ∷ hlvh ∷ hlvhu ∷ hlvw ∷ hlvxhu ∷ hlvxwu ∷ hsvb ∷ hsvh ∷ hsvw ∷ []

unfoldable pub nth : List Mapping → ℕ → Mapping
nth [] k = undef
nth (m ∷ ms) zero = m
nth (m ∷ ms) (suc k) = nth ms k

pub nth-index : (m : Mapping) → nth mappings (index m) ≡ m
unfolding nth
nth-index m = ground arith

pub index_bound : (m : Mapping) → index m < 172
index_bound m = ground arith
