-- ===== src/Instr/Codes.antt =====
-- instr.cpp: the mask and the encoding of each instruction, X_MASK and X_ENCODING. Each table ends in
-- the next; `no_code`, behind the last, matches no word, and stands for UNDEF, which has no mask.
use rvvp.Base.{ℕ}
use rvvp.Instr.Mapping.{
  Mapping, lui, auipc, jal, jalr, beq, bne, blt, bge, bltu, bgeu, lb, lh, lw, lbu, lhu, sb, sh, sw,
  addi, slti, sltiu, xori, ori, andi, slli, srli, srai, add, sub, sll, slt, sltu, xor, srl, sra, or,
  and, fence, ecall, ebreak, fence_i, csrrw, csrrs, csrrc, csrrwi, csrrsi, csrrci, mul, mulh,
  mulhsu, mulhu, div, divu, rem, remu, lr_w, sc_w, amoswap_w, amoadd_w, amoxor_w, amoand_w, amoor_w,
  amomin_w, amomax_w, amominu_w, amomaxu_w, lwu, ld, sd, addiw, slliw, srliw, sraiw, addw, subw,
  sllw, srlw, sraw, mulw, divw, divuw, remw, remuw, lr_d, sc_d, amoswap_d, amoadd_d, amoxor_d,
  amoand_d, amoor_d, amomin_d, amomax_d, amominu_d, amomaxu_d, flw, fsw, fmadd_s, fmsub_s, fnmadd_s,
  fnmsub_s, fadd_s, fsub_s, fmul_s, fdiv_s, fsqrt_s, fsgnj_s, fsgnjn_s, fsgnjx_s, fmin_s, fmax_s,
  fcvt_w_s, fcvt_wu_s, fmv_x_w, feq_s, flt_s, fle_s, fclass_s, fcvt_s_w, fcvt_s_wu, fmv_w_x,
  fcvt_l_s, fcvt_lu_s, fcvt_s_l, fcvt_s_lu, fld, fsd, fmadd_d, fmsub_d, fnmsub_d, fnmadd_d, fadd_d,
  fsub_d, fmul_d, fdiv_d, fsqrt_d, fsgnj_d, fsgnjn_d, fsgnjx_d, fmin_d, fmax_d, fcvt_s_d, fcvt_d_s,
  feq_d, flt_d, fle_d, fclass_d, fcvt_w_d, fcvt_wu_d, fcvt_d_w, fcvt_d_wu, fcvt_l_d, fcvt_lu_d,
  fmv_x_d, fcvt_d_l, fcvt_d_lu, fmv_d_x, uret, sret, mret, wfi, sfence_vma, hlvb, hlvbu, hlvh,
  hlvhu, hlvw, hlvxhu, hlvxwu, hsvb, hsvh, hsvw,
}

pub record Code : Type 0 where
  pub mask : ℕ
  pub encoding : ℕ

abbrev pub bits : ℕ → ℕ → Code
bits mask encoding = record { mask = mask; encoding = encoding }

abbrev no_code : Code
no_code = bits 0 1

-- Those of the accesses to virtual machines.
abbrev pub code_hv : Mapping → Code
code_hv hlvb = bits 0xfff0707f 0x60004073
code_hv hlvbu = bits 0xfff0707f 0x60104073
code_hv hlvh = bits 0xfff0707f 0x64004073
code_hv hlvhu = bits 0xfff0707f 0x64104073
code_hv hlvw = bits 0xfff0707f 0x68004073
code_hv hlvxhu = bits 0xfff0707f 0x64304073
code_hv hlvxwu = bits 0xfff0707f 0x68304073
code_hv hsvb = bits 0xfe007fff 0x62004073
code_hv hsvh = bits 0xfe007fff 0x66004073
code_hv hsvw = bits 0xfe007fff 0x6a004073
code_hv _ = no_code

-- Those of floating point.
abbrev pub code_fd : Mapping → Code
code_fd flw = bits 0x0000707f 0x00002007
code_fd fsw = bits 0x0000707f 0x00002027
code_fd fmadd_s = bits 0x0600007f 0x00000043
code_fd fmsub_s = bits 0x0600007f 0x00000047
code_fd fnmadd_s = bits 0x0600007f 0x0000004f
code_fd fnmsub_s = bits 0x0600007f 0x0000004b
code_fd fadd_s = bits 0xfe00007f 0x00000053
code_fd fsub_s = bits 0xfe00007f 0x08000053
code_fd fmul_s = bits 0xfe00007f 0x10000053
code_fd fdiv_s = bits 0xfe00007f 0x18000053
code_fd fsqrt_s = bits 0xfff0007f 0x58000053
code_fd fsgnj_s = bits 0xfe00707f 0x20000053
code_fd fsgnjn_s = bits 0xfe00707f 0x20001053
code_fd fsgnjx_s = bits 0xfe00707f 0x20002053
code_fd fmin_s = bits 0xfe00707f 0x28000053
code_fd fmax_s = bits 0xfe00707f 0x28001053
code_fd fcvt_w_s = bits 0xfff0007f 0xc0000053
code_fd fcvt_wu_s = bits 0xfff0007f 0xc0100053
code_fd fmv_x_w = bits 0xfff0707f 0xe0000053
code_fd feq_s = bits 0xfe00707f 0xa0002053
code_fd flt_s = bits 0xfe00707f 0xa0001053
code_fd fle_s = bits 0xfe00707f 0xa0000053
code_fd fclass_s = bits 0xfff0707f 0xe0001053
code_fd fcvt_s_w = bits 0xfff0007f 0xd0000053
code_fd fcvt_s_wu = bits 0xfff0007f 0xd0100053
code_fd fmv_w_x = bits 0xfff0707f 0xf0000053
code_fd fcvt_l_s = bits 0xfff0007f 0xc0200053
code_fd fcvt_lu_s = bits 0xfff0007f 0xc0300053
code_fd fcvt_s_l = bits 0xfff0007f 0xd0200053
code_fd fcvt_s_lu = bits 0xfff0007f 0xd0300053
code_fd fld = bits 0x0000707f 0x00003007
code_fd fsd = bits 0x0000707f 0x00003027
code_fd fmadd_d = bits 0x0600007f 0x02000043
code_fd fmsub_d = bits 0x0600007f 0x02000047
code_fd fnmsub_d = bits 0x0600007f 0x0200004b
code_fd fnmadd_d = bits 0x0600007f 0x0200004f
code_fd fadd_d = bits 0xfe00007f 0x02000053
code_fd fsub_d = bits 0xfe00007f 0x0a000053
code_fd fmul_d = bits 0xfe00007f 0x12000053
code_fd fdiv_d = bits 0xfe00007f 0x1a000053
code_fd fsqrt_d = bits 0xfff0007f 0x5a000053
code_fd fsgnj_d = bits 0xfe00707f 0x22000053
code_fd fsgnjn_d = bits 0xfe00707f 0x22001053
code_fd fsgnjx_d = bits 0xfe00707f 0x22002053
code_fd fmin_d = bits 0xfe00707f 0x2a000053
code_fd fmax_d = bits 0xfe00707f 0x2a001053
code_fd fcvt_s_d = bits 0xfff0007f 0x40100053
code_fd fcvt_d_s = bits 0xfff0007f 0x42000053
code_fd feq_d = bits 0xfe00707f 0xa2002053
code_fd flt_d = bits 0xfe00707f 0xa2001053
code_fd fle_d = bits 0xfe00707f 0xa2000053
code_fd fclass_d = bits 0xfff0707f 0xe2001053
code_fd fcvt_w_d = bits 0xfff0007f 0xc2000053
code_fd fcvt_wu_d = bits 0xfff0007f 0xc2100053
code_fd fcvt_d_w = bits 0xfff0007f 0xd2000053
code_fd fcvt_d_wu = bits 0xfff0007f 0xd2100053
code_fd fcvt_l_d = bits 0xfff0007f 0xc2200053
code_fd fcvt_lu_d = bits 0xfff0007f 0xc2300053
code_fd fmv_x_d = bits 0xfff0707f 0xe2000053
code_fd fcvt_d_l = bits 0xfff0007f 0xd2200053
code_fd fcvt_d_lu = bits 0xfff0007f 0xd2300053
code_fd fmv_d_x = bits 0xfff0707f 0xf2000053
code_fd m = code_hv m

-- Those of the 64-bit instructions.
abbrev pub code_rv64 : Mapping → Code
code_rv64 lwu = bits 0x0000707f 0x00006003
code_rv64 ld = bits 0x0000707f 0x00003003
code_rv64 sd = bits 0x0000707f 0x00003023
code_rv64 addiw = bits 0x0000707f 0x0000001b
code_rv64 slliw = bits 0xfe00707f 0x0000101b
code_rv64 srliw = bits 0xfe00707f 0x0000501b
code_rv64 sraiw = bits 0xfe00707f 0x4000501b
code_rv64 addw = bits 0xfe00707f 0x0000003b
code_rv64 subw = bits 0xfe00707f 0x4000003b
code_rv64 sllw = bits 0xfe00707f 0x0000103b
code_rv64 srlw = bits 0xfe00707f 0x0000503b
code_rv64 sraw = bits 0xfe00707f 0x4000503b
code_rv64 mulw = bits 0xfe00707f 0x0200003b
code_rv64 divw = bits 0xfe00707f 0x0200403b
code_rv64 divuw = bits 0xfe00707f 0x0200503b
code_rv64 remw = bits 0xfe00707f 0x0200603b
code_rv64 remuw = bits 0xfe00707f 0x0200703b
code_rv64 lr_d = bits 0xf9f0707f 0x1000302f
code_rv64 sc_d = bits 0xf800707f 0x1800302f
code_rv64 amoswap_d = bits 0xf800707f 0x0800302f
code_rv64 amoadd_d = bits 0xf800707f 0x0000302f
code_rv64 amoxor_d = bits 0xf800707f 0x2000302f
code_rv64 amoand_d = bits 0xf800707f 0x6000302f
code_rv64 amoor_d = bits 0xf800707f 0x4000302f
code_rv64 amomin_d = bits 0xf800707f 0x8000302f
code_rv64 amomax_d = bits 0xf800707f 0xa000302f
code_rv64 amominu_d = bits 0xf800707f 0xc000302f
code_rv64 amomaxu_d = bits 0xf800707f 0xe000302f
code_rv64 m = code_fd m

-- Those of the base instructions, M, A and the privileged ones.
abbrev pub code_rv32 : Mapping → Code
code_rv32 lui = bits 0x0000007f 0x00000037
code_rv32 auipc = bits 0x0000007f 0x00000017
code_rv32 jal = bits 0x0000007f 0x0000006f
code_rv32 jalr = bits 0x0000707f 0x00000067
code_rv32 beq = bits 0x0000707f 0x00000063
code_rv32 bne = bits 0x0000707f 0x00001063
code_rv32 blt = bits 0x0000707f 0x00004063
code_rv32 bge = bits 0x0000707f 0x00005063
code_rv32 bltu = bits 0x0000707f 0x00006063
code_rv32 bgeu = bits 0x0000707f 0x00007063
code_rv32 lb = bits 0x0000707f 0x00000003
code_rv32 lh = bits 0x0000707f 0x00001003
code_rv32 lw = bits 0x0000707f 0x00002003
code_rv32 lbu = bits 0x0000707f 0x00004003
code_rv32 lhu = bits 0x0000707f 0x00005003
code_rv32 sb = bits 0x0000707f 0x00000023
code_rv32 sh = bits 0x0000707f 0x00001023
code_rv32 sw = bits 0x0000707f 0x00002023
code_rv32 addi = bits 0x0000707f 0x00000013
code_rv32 slti = bits 0x0000707f 0x00002013
code_rv32 sltiu = bits 0x0000707f 0x00003013
code_rv32 xori = bits 0x0000707f 0x00004013
code_rv32 ori = bits 0x0000707f 0x00006013
code_rv32 andi = bits 0x0000707f 0x00007013
code_rv32 slli = bits 0xfc00707f 0x00001013
code_rv32 srli = bits 0xfc00707f 0x00005013
code_rv32 srai = bits 0xfc00707f 0x40005013
code_rv32 add = bits 0xfe00707f 0x00000033
code_rv32 sub = bits 0xfe00707f 0x40000033
code_rv32 sll = bits 0xfe00707f 0x00001033
code_rv32 slt = bits 0xfe00707f 0x00002033
code_rv32 sltu = bits 0xfe00707f 0x00003033
code_rv32 xor = bits 0xfe00707f 0x00004033
code_rv32 srl = bits 0xfe00707f 0x00005033
code_rv32 sra = bits 0xfe00707f 0x40005033
code_rv32 or = bits 0xfe00707f 0x00006033
code_rv32 and = bits 0xfe00707f 0x00007033
code_rv32 fence = bits 0x0000707f 0x0000000f
code_rv32 fence_i = bits 0x0000707f 0x0000100f
code_rv32 ecall = bits 0xffffffff 0x00000073
code_rv32 ebreak = bits 0xffffffff 0x00100073
code_rv32 csrrw = bits 0x0000707f 0x00001073
code_rv32 csrrs = bits 0x0000707f 0x00002073
code_rv32 csrrc = bits 0x0000707f 0x00003073
code_rv32 csrrwi = bits 0x0000707f 0x00005073
code_rv32 csrrsi = bits 0x0000707f 0x00006073
code_rv32 csrrci = bits 0x0000707f 0x00007073
code_rv32 mul = bits 0xfe00707f 0x02000033
code_rv32 mulh = bits 0xfe00707f 0x02001033
code_rv32 mulhsu = bits 0xfe00707f 0x02002033
code_rv32 mulhu = bits 0xfe00707f 0x02003033
code_rv32 div = bits 0xfe00707f 0x02004033
code_rv32 divu = bits 0xfe00707f 0x02005033
code_rv32 rem = bits 0xfe00707f 0x02006033
code_rv32 remu = bits 0xfe00707f 0x02007033
code_rv32 lr_w = bits 0xf9f0707f 0x1000202f
code_rv32 sc_w = bits 0xf800707f 0x1800202f
code_rv32 amoswap_w = bits 0xf800707f 0x0800202f
code_rv32 amoadd_w = bits 0xf800707f 0x0000202f
code_rv32 amoxor_w = bits 0xf800707f 0x2000202f
code_rv32 amoand_w = bits 0xf800707f 0x6000202f
code_rv32 amoor_w = bits 0xf800707f 0x4000202f
code_rv32 amomin_w = bits 0xf800707f 0x8000202f
code_rv32 amomax_w = bits 0xf800707f 0xa000202f
code_rv32 amominu_w = bits 0xf800707f 0xc000202f
code_rv32 amomaxu_w = bits 0xf800707f 0xe000202f
code_rv32 uret = bits 0xffffffff 0x00200073
code_rv32 sret = bits 0xffffffff 0x10200073
code_rv32 mret = bits 0xffffffff 0x30200073
code_rv32 wfi = bits 0xffffffff 0x10500073
code_rv32 sfence_vma = bits 0xfe007fff 0x12000073
code_rv32 m = code_rv64 m

-- The shifts by an immediate on RV32, whose amounts have one bit less.

abbrev pub slli_32 : Code
slli_32 = bits 0xfe00707f 0x00001013

abbrev pub srli_32 : Code
srli_32 = bits 0xfe00707f 0x00005013

abbrev pub srai_32 : Code
srai_32 = bits 0xfe00707f 0x40005013
