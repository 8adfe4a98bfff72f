-- ===== src/Instr/Parts/Base.antt =====
-- instr.h: `enum Parts`, the opcodes and function fields of the base instructions.
use rvvp.Base.{ℕ}

abbrev pub op_lui : ℕ
op_lui = 0b0110111

abbrev pub op_auipc : ℕ
op_auipc = 0b0010111

abbrev pub op_jal : ℕ
op_jal = 0b1101111

abbrev pub op_jalr : ℕ
op_jalr = 0b1100111

abbrev pub op_lb : ℕ
op_lb = 0b0000011

abbrev pub f3_lb : ℕ
f3_lb = 0b000

abbrev pub f3_lh : ℕ
f3_lh = 0b001

abbrev pub f3_lw : ℕ
f3_lw = 0b010

abbrev pub f3_lbu : ℕ
f3_lbu = 0b100

abbrev pub f3_lhu : ℕ
f3_lhu = 0b101

abbrev pub f3_lwu : ℕ
f3_lwu = 0b110

abbrev pub f3_ld : ℕ
f3_ld = 0b011

abbrev pub op_sb : ℕ
op_sb = 0b0100011

abbrev pub f3_sb : ℕ
f3_sb = 0b000

abbrev pub f3_sh : ℕ
f3_sh = 0b001

abbrev pub f3_sw : ℕ
f3_sw = 0b010

abbrev pub f3_sd : ℕ
f3_sd = 0b011

abbrev pub op_beq : ℕ
op_beq = 0b1100011

abbrev pub f3_beq : ℕ
f3_beq = 0b000

abbrev pub f3_bne : ℕ
f3_bne = 0b001

abbrev pub f3_blt : ℕ
f3_blt = 0b100

abbrev pub f3_bge : ℕ
f3_bge = 0b101

abbrev pub f3_bltu : ℕ
f3_bltu = 0b110

abbrev pub f3_bgeu : ℕ
f3_bgeu = 0b111

abbrev pub op_addi : ℕ
op_addi = 0b0010011

abbrev pub f3_addi : ℕ
f3_addi = 0b000

abbrev pub f3_slti : ℕ
f3_slti = 0b010

abbrev pub f3_sltiu : ℕ
f3_sltiu = 0b011

abbrev pub f3_xori : ℕ
f3_xori = 0b100

abbrev pub f3_ori : ℕ
f3_ori = 0b110

abbrev pub f3_andi : ℕ
f3_andi = 0b111

abbrev pub f3_slli : ℕ
f3_slli = 0b001

abbrev pub f3_srli : ℕ
f3_srli = 0b101

abbrev pub f6_srli : ℕ
f6_srli = 0b000000

abbrev pub f6_srai : ℕ
f6_srai = 0b010000

abbrev pub op_add : ℕ
op_add = 0b0110011

abbrev pub f3_add : ℕ
f3_add = 0b000

abbrev pub f7_add : ℕ
f7_add = 0b0000000

abbrev pub f3_sub : ℕ
f3_sub = 0b000

abbrev pub f7_sub : ℕ
f7_sub = 0b0100000

abbrev pub f3_sll : ℕ
f3_sll = 0b001

abbrev pub f3_slt : ℕ
f3_slt = 0b010

abbrev pub f3_sltu : ℕ
f3_sltu = 0b011

abbrev pub f3_xor : ℕ
f3_xor = 0b100

abbrev pub f3_srl : ℕ
f3_srl = 0b101

abbrev pub f3_sra : ℕ
f3_sra = 0b101

abbrev pub f3_or : ℕ
f3_or = 0b110

abbrev pub f3_and : ℕ
f3_and = 0b111

abbrev pub f3_mul : ℕ
f3_mul = 0b000

abbrev pub f7_mul : ℕ
f7_mul = 0b0000001

abbrev pub f3_mulh : ℕ
f3_mulh = 0b001

abbrev pub f3_mulhsu : ℕ
f3_mulhsu = 0b010

abbrev pub f3_mulhu : ℕ
f3_mulhu = 0b011

abbrev pub f3_div : ℕ
f3_div = 0b100

abbrev pub f3_divu : ℕ
f3_divu = 0b101

abbrev pub f3_rem : ℕ
f3_rem = 0b110

abbrev pub f3_remu : ℕ
f3_remu = 0b111

abbrev pub op_fence : ℕ
op_fence = 0b0001111

abbrev pub f3_fence : ℕ
f3_fence = 0b000

abbrev pub f3_fence_i : ℕ
f3_fence_i = 0b001

abbrev pub op_ecall : ℕ
op_ecall = 0b1110011

abbrev pub f3_sys : ℕ
f3_sys = 0b000

abbrev pub f12_ecall : ℕ
f12_ecall = 0b000000000000

abbrev pub f12_ebreak : ℕ
f12_ebreak = 0b000000000001

abbrev pub f12_uret : ℕ
f12_uret = 0b000000000010

abbrev pub f12_sret : ℕ
f12_sret = 0b000100000010

abbrev pub f12_mret : ℕ
f12_mret = 0b001100000010

abbrev pub f12_wfi : ℕ
f12_wfi = 0b000100000101

abbrev pub f3_csrrw : ℕ
f3_csrrw = 0b001

abbrev pub f3_csrrs : ℕ
f3_csrrs = 0b010

abbrev pub f3_csrrc : ℕ
f3_csrrc = 0b011
