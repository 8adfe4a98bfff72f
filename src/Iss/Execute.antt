-- ===== src/Iss/Execute.antt =====
-- core/rv32/iss.cpp: `exec_step`, the cases of the integer instructions.
use rvvp.Base.{
  ℕ, ◌+◌, ◌/◌, ◌^◌, Bool, ltb, ◌==◌, not, if◌then◌else◌, bit_and, bit_or, bit_xor, min, max, Option,
  none, some,
}
use rvvp.Base.Bits.{bit_not}
use rvvp.Instr.Word.{asr, shl}
use rvvp.Instr.Mapping.{
  Mapping, addi, slti, sltiu, xori, ori, andi, add, sub, sll, slt, sltu, srl, sra, xor, or, and,
  slli, srli, srai, lui, auipc, jal, jalr, sb, sh, sw, lb, lh, lw, lbu, lhu, beq, bne, blt, bge,
  bltu, bgeu, fence, fence_i, ebreak, mul, mulh, mulhu, mulhsu, div, divu, rem, remu, lr_w, sc_w,
  amoswap_w, amoadd_w, amoxor_w, amoand_w, amoor_w, amomin_w, amominu_w, amomax_w, amomaxu_w, undef,
  lwu, ld, sd, addiw, slliw, srliw, sraiw, addw, subw, sllw, srlw, sraw, mulw, divw, divuw, remw,
  remuw, lr_d, sc_d, amoswap_d, amoadd_d, amoxor_d, amoand_d, amoor_d, amomin_d, amomax_d,
  amominu_d, amomaxu_d, fcvt_l_s, fcvt_lu_s, fcvt_s_l, fcvt_s_lu, fcvt_l_d, fcvt_lu_d, fmv_x_d,
  fcvt_d_l, fcvt_d_lu, fmv_d_x,
}
use rvvp.Instr.Fields.{rd, rs1, rs2, shamt, i_imm, b_imm, j_imm, u_imm}
use rvvp.Iss.Alu
use rvvp.Iss.Alu.{word, signed_lt, bit, add32, sub32, signed_min, signed_max}
use rvvp.Iss.State.{
  Action, ◌>>=◌, ◌>>◌, pure, raise, read_reg, write_reg, get_pc, get_last_pc, set_status,
  require_isa, jump, hit_breakpoint,
}
use rvvp.Iss.Memory.{DataMemory, load, store, load_reserved, store_conditional, execute_amo}

abbrev m_isa_ext : ℕ
m_isa_ext = 2 ^ 12

abbrev a_isa_ext : ℕ
a_isa_ext = 1

module _ {M : Type 0} where
  -- `regs[instr.rd()] = f(regs[instr.rs1()], instr.I_imm())`
  unfoldable pub with_immediate : (ℕ → ℕ → ℕ) → ℕ → Action M (Unit {0})
  with_immediate f instr = do a ← read_reg (rs1 instr); write_reg (rd instr) (f a (i_imm instr))

  -- `regs[instr.rd()] = f(regs[instr.rs1()], regs[instr.rs2()])`
  unfoldable pub with_register : (ℕ → ℕ → ℕ) → ℕ → Action M (Unit {0})
  with_register f instr = do
    a ← read_reg (rs1 instr)
    b ← read_reg (rs2 instr)
    write_reg (rd instr) (f a b)

  unfoldable pub with_shamt : (ℕ → ℕ → ℕ) → ℕ → Action M (Unit {0})
  with_shamt f instr = do a ← read_reg (rs1 instr); write_reg (rd instr) (f a (shamt instr))

  unfoldable pub auipc_step : ℕ → Action M (Unit {0})
  auipc_step instr = do last ← get_last_pc; write_reg (rd instr) (last + u_imm instr)

  unfoldable pub jal_step : ℕ → Action M (Unit {0})
  jal_step instr = do
    link ← get_pc
    last ← get_last_pc
    jump (last + j_imm instr)
    write_reg (rd instr) link

  unfoldable pub jalr_step : ℕ → Action M (Unit {0})
  jalr_step instr = do
    link ← get_pc
    a ← read_reg (rs1 instr)
    jump (bit_and (word (a + i_imm instr)) (bit_not 32 1))
    write_reg (rd instr) link

  -- The branches: a jump if the test holds.
  unfoldable pub branch : (ℕ → ℕ → Bool) → ℕ → Action M (Unit {0})
  branch holds instr = do
    a ← read_reg (rs1 instr)
    b ← read_reg (rs2 instr)
    last ← get_last_pc
    if holds a b then jump (last + b_imm instr) else pure tt

  -- The case of an instruction, and `none` for those that the model leaves out: system calls, CSRs,
  -- returns from traps, floating point and accesses to virtual machines.
  unfoldable pub execute : DataMemory M → Mapping → ℕ → Option (Action M (Unit {0}))
  execute mem addi instr = some (with_immediate add32 instr)
  execute mem slti instr = some (with_immediate (λ a b. bit (signed_lt a b)) instr)
  execute mem sltiu instr = some (with_immediate (λ a b. bit (ltb a b)) instr)
  execute mem xori instr = some (with_immediate bit_xor instr)
  execute mem ori instr = some (with_immediate bit_or instr)
  execute mem andi instr = some (with_immediate bit_and instr)
  execute mem add instr = some (with_register add32 instr)
  execute mem sub instr = some (with_register sub32 instr)
  execute mem sll instr = some (with_register Alu.sll instr)
  execute mem slt instr = some (with_register (λ a b. bit (signed_lt a b)) instr)
  execute mem sltu instr = some (with_register (λ a b. bit (ltb a b)) instr)
  execute mem srl instr = some (with_register Alu.srl instr)
  execute mem sra instr = some (with_register Alu.sra instr)
  execute mem xor instr = some (with_register bit_xor instr)
  execute mem or instr = some (with_register bit_or instr)
  execute mem and instr = some (with_register bit_and instr)
  execute mem slli instr = some (with_shamt shl instr)
  execute mem srli instr = some (with_shamt (λ a k. a / 2 ^ k) instr)
  execute mem srai instr = some (with_shamt asr instr)
  execute mem lui instr = some (write_reg (rd instr) (u_imm instr))
  execute mem auipc instr = some (auipc_step instr)
  execute mem jal instr = some (jal_step instr)
  execute mem jalr instr = some (jalr_step instr)
  execute mem sb instr = some (store mem.store_byte 1 instr)
  execute mem sh instr = some (store mem.store_half 2 instr)
  execute mem sw instr = some (store mem.store_word 4 instr)
  execute mem lb instr = some (load mem.load_byte 1 instr)
  execute mem lh instr = some (load mem.load_half 2 instr)
  execute mem lw instr = some (load mem.load_word 4 instr)
  execute mem lbu instr = some (load mem.load_ubyte 1 instr)
  execute mem lhu instr = some (load mem.load_uhalf 2 instr)
  execute mem beq instr = some (branch (λ a b. a == b) instr)
  execute mem bne instr = some (branch (λ a b. not (a == b)) instr)
  execute mem blt instr = some (branch signed_lt instr)
  execute mem bge instr = some (branch (λ a b. not (signed_lt a b)) instr)
  execute mem bltu instr = some (branch ltb instr)
  execute mem bgeu instr = some (branch (λ a b. not (ltb a b)) instr)
  execute mem fence instr = some (pure tt)
  execute mem fence_i instr = some (pure tt)
  execute mem ebreak instr = some (set_status hit_breakpoint)
  execute mem mul instr = some (require_isa m_isa_ext instr >> with_register Alu.mul instr)
  execute mem mulh instr = some (require_isa m_isa_ext instr >> with_register Alu.mulh instr)
  execute mem mulhu instr = some (require_isa m_isa_ext instr >> with_register Alu.mulhu instr)
  execute mem mulhsu instr = some (require_isa m_isa_ext instr >> with_register Alu.mulhsu instr)
  execute mem div instr = some (require_isa m_isa_ext instr >> with_register Alu.div instr)
  execute mem divu instr = some (require_isa m_isa_ext instr >> with_register Alu.divu instr)
  execute mem rem instr = some (require_isa m_isa_ext instr >> with_register Alu.rem instr)
  execute mem remu instr = some (require_isa m_isa_ext instr >> with_register Alu.remu instr)
  execute mem lr_w instr = some (require_isa a_isa_ext instr >> load_reserved mem instr)
  execute mem sc_w instr = some (require_isa a_isa_ext instr >> store_conditional mem instr)
  execute mem amoswap_w instr =
      some (require_isa a_isa_ext instr >> execute_amo mem (λ a b. b) instr)
  execute mem amoadd_w instr = some (require_isa a_isa_ext instr >> execute_amo mem add32 instr)
  execute mem amoxor_w instr = some (require_isa a_isa_ext instr >> execute_amo mem bit_xor instr)
  execute mem amoand_w instr = some (require_isa a_isa_ext instr >> execute_amo mem bit_and instr)
  execute mem amoor_w instr = some (require_isa a_isa_ext instr >> execute_amo mem bit_or instr)
  execute mem amomin_w instr =
      some (require_isa a_isa_ext instr >> execute_amo mem signed_min instr)
  execute mem amominu_w instr = some (require_isa a_isa_ext instr >> execute_amo mem min instr)
  execute mem amomax_w instr =
      some (require_isa a_isa_ext instr >> execute_amo mem signed_max instr)
  execute mem amomaxu_w instr = some (require_isa a_isa_ext instr >> execute_amo mem max instr)
  execute mem undef instr = some (raise 2 instr)
  execute mem lwu instr = some (raise 2 instr)
  execute mem ld instr = some (raise 2 instr)
  execute mem sd instr = some (raise 2 instr)
  execute mem addiw instr = some (raise 2 instr)
  execute mem slliw instr = some (raise 2 instr)
  execute mem srliw instr = some (raise 2 instr)
  execute mem sraiw instr = some (raise 2 instr)
  execute mem addw instr = some (raise 2 instr)
  execute mem subw instr = some (raise 2 instr)
  execute mem sllw instr = some (raise 2 instr)
  execute mem srlw instr = some (raise 2 instr)
  execute mem sraw instr = some (raise 2 instr)
  execute mem mulw instr = some (raise 2 instr)
  execute mem divw instr = some (raise 2 instr)
  execute mem divuw instr = some (raise 2 instr)
  execute mem remw instr = some (raise 2 instr)
  execute mem remuw instr = some (raise 2 instr)
  execute mem lr_d instr = some (raise 2 instr)
  execute mem sc_d instr = some (raise 2 instr)
  execute mem amoswap_d instr = some (raise 2 instr)
  execute mem amoadd_d instr = some (raise 2 instr)
  execute mem amoxor_d instr = some (raise 2 instr)
  execute mem amoand_d instr = some (raise 2 instr)
  execute mem amoor_d instr = some (raise 2 instr)
  execute mem amomin_d instr = some (raise 2 instr)
  execute mem amomax_d instr = some (raise 2 instr)
  execute mem amominu_d instr = some (raise 2 instr)
  execute mem amomaxu_d instr = some (raise 2 instr)
  execute mem fcvt_l_s instr = some (raise 2 instr)
  execute mem fcvt_lu_s instr = some (raise 2 instr)
  execute mem fcvt_s_l instr = some (raise 2 instr)
  execute mem fcvt_s_lu instr = some (raise 2 instr)
  execute mem fcvt_l_d instr = some (raise 2 instr)
  execute mem fcvt_lu_d instr = some (raise 2 instr)
  execute mem fmv_x_d instr = some (raise 2 instr)
  execute mem fcvt_d_l instr = some (raise 2 instr)
  execute mem fcvt_d_lu instr = some (raise 2 instr)
  execute mem fmv_d_x instr = some (raise 2 instr)
  execute mem other instr = none
