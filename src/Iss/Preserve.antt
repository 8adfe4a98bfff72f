-- ===== src/Iss/Preserve.antt =====
-- `exec_step` keeps the states of the simulator.
use rvvp.Base.{ℕ, ◌≡◌, Option, none, some}
use mathlib.Core.Path.{subst}
use rvvp.Instr.Mapping.{
  Mapping, addi, slti, sltiu, xori, ori, andi, add, sub, sll, slt, sltu, srl, sra, xor, or, and,
  slli, srli, srai, lui, auipc, jal, jalr, sb, sh, sw, lb, lh, lw, lbu, lhu, beq, bne, blt, bge,
  bltu, bgeu, fence, fence_i, ebreak, mul, mulh, mulhu, mulhsu, div, divu, rem, remu, lr_w, sc_w,
  amoswap_w, amoadd_w, amoxor_w, amoand_w, amoor_w, amomin_w, amominu_w, amomax_w, amomaxu_w, undef,
  lwu, ld, sd, addiw, slliw, srliw, sraiw, addw, subw, sllw, srlw, sraw, mulw, divw, divuw, remw,
  remuw, lr_d, sc_d, amoswap_d, amoadd_d, amoxor_d, amoand_d, amoor_d, amomin_d, amomax_d,
  amominu_d, amomaxu_d, fcvt_l_s, fcvt_lu_s, fcvt_s_l, fcvt_s_lu, fcvt_l_d, fcvt_lu_d, fmv_x_d,
  fcvt_d_l, fcvt_d_lu, fmv_d_x,
}
use rvvp.Instr.Fields.{rd}
use rvvp.Iss.State.{Iss, Action, hit_breakpoint}
use rvvp.Iss.Memory.{DataMemory}
use rvvp.Iss.Execute.{execute}
use rvvp.Iss.Valid.{
  Any, After, IsValid, Keeps, bind-Keeps, pure-Keeps, raise-Keeps, write_reg-Keeps,
  require_isa-Keeps, set_status-Keeps,
}
use rvvp.Iss.Quiet.{
  IsQuiet, load-Keeps, store-Keeps, load_reserved-Keeps, store_conditional-Keeps, execute_amo-Keeps,
}
use rvvp.Iss.Steps.{
  with_immediate-Keeps, with_register-Keeps, with_shamt-Keeps, auipc_step-Keeps, jal_step-Keeps,
  jalr_step-Keeps, branch-Keeps,
}

module _ {M : Type 0} (mem : DataMemory M) (q : IsQuiet mem) where
  -- The case of an instruction, if there is one, keeps the states.
  abbrev Each : Option (Action M (Unit {0})) → Type 0
  Each none = Unit {0}
  Each (some action) = Keeps Any action

  execute-Each : (op : Mapping) (instr : ℕ) → Each (execute mem op instr)
  unfolding execute
  execute-Each addi instr = with_immediate-Keeps _ instr
  execute-Each slti instr = with_immediate-Keeps _ instr
  execute-Each sltiu instr = with_immediate-Keeps _ instr
  execute-Each xori instr = with_immediate-Keeps _ instr
  execute-Each ori instr = with_immediate-Keeps _ instr
  execute-Each andi instr = with_immediate-Keeps _ instr
  execute-Each add instr = with_register-Keeps _ instr
  execute-Each sub instr = with_register-Keeps _ instr
  execute-Each sll instr = with_register-Keeps _ instr
  execute-Each slt instr = with_register-Keeps _ instr
  execute-Each sltu instr = with_register-Keeps _ instr
  execute-Each srl instr = with_register-Keeps _ instr
  execute-Each sra instr = with_register-Keeps _ instr
  execute-Each xor instr = with_register-Keeps _ instr
  execute-Each or instr = with_register-Keeps _ instr
  execute-Each and instr = with_register-Keeps _ instr
  execute-Each slli instr = with_shamt-Keeps _ instr
  execute-Each srli instr = with_shamt-Keeps _ instr
  execute-Each srai instr = with_shamt-Keeps _ instr
  execute-Each lui instr = write_reg-Keeps (rd instr) _
  execute-Each auipc instr = auipc_step-Keeps instr
  execute-Each jal instr = jal_step-Keeps instr
  execute-Each jalr instr = jalr_step-Keeps instr
  execute-Each sb instr = store-Keeps _ 1 instr q.quiet_store_byte
  execute-Each sh instr = store-Keeps _ 2 instr q.quiet_store_half
  execute-Each sw instr = store-Keeps _ 4 instr q.quiet_store_word
  execute-Each lb instr = load-Keeps _ 1 instr q.quiet_load_byte
  execute-Each lh instr = load-Keeps _ 2 instr q.quiet_load_half
  execute-Each lw instr = load-Keeps _ 4 instr q.quiet_load_word
  execute-Each lbu instr = load-Keeps _ 1 instr q.quiet_load_ubyte
  execute-Each lhu instr = load-Keeps _ 2 instr q.quiet_load_uhalf
  execute-Each beq instr = branch-Keeps _ instr
  execute-Each bne instr = branch-Keeps _ instr
  execute-Each blt instr = branch-Keeps _ instr
  execute-Each bge instr = branch-Keeps _ instr
  execute-Each bltu instr = branch-Keeps _ instr
  execute-Each bgeu instr = branch-Keeps _ instr
  execute-Each fence instr = pure-Keeps Any tt tt
  execute-Each fence_i instr = pure-Keeps Any tt tt
  execute-Each ebreak instr = set_status-Keeps hit_breakpoint
  execute-Each mul instr =
      bind-Keeps Any Any _ _ (require_isa-Keeps _ instr) (λ _ _. with_register-Keeps _ instr)
  execute-Each mulh instr =
      bind-Keeps Any Any _ _ (require_isa-Keeps _ instr) (λ _ _. with_register-Keeps _ instr)
  execute-Each mulhu instr =
      bind-Keeps Any Any _ _ (require_isa-Keeps _ instr) (λ _ _. with_register-Keeps _ instr)
  execute-Each mulhsu instr =
      bind-Keeps Any Any _ _ (require_isa-Keeps _ instr) (λ _ _. with_register-Keeps _ instr)
  execute-Each div instr =
      bind-Keeps Any Any _ _ (require_isa-Keeps _ instr) (λ _ _. with_register-Keeps _ instr)
  execute-Each divu instr =
      bind-Keeps Any Any _ _ (require_isa-Keeps _ instr) (λ _ _. with_register-Keeps _ instr)
  execute-Each rem instr =
      bind-Keeps Any Any _ _ (require_isa-Keeps _ instr) (λ _ _. with_register-Keeps _ instr)
  execute-Each remu instr =
      bind-Keeps Any Any _ _ (require_isa-Keeps _ instr) (λ _ _. with_register-Keeps _ instr)
  execute-Each lr_w instr =
      bind-Keeps Any Any _ _ (require_isa-Keeps _ instr) (λ _ _. load_reserved-Keeps mem q instr)
  execute-Each sc_w instr =
      bind-Keeps Any Any _ _ (require_isa-Keeps _ instr)
        (λ _ _. store_conditional-Keeps mem q instr)
  execute-Each amoswap_w instr =
      bind-Keeps Any Any _ _ (require_isa-Keeps _ instr) (λ _ _. execute_amo-Keeps mem q _ instr)
  execute-Each amoadd_w instr =
      bind-Keeps Any Any _ _ (require_isa-Keeps _ instr) (λ _ _. execute_amo-Keeps mem q _ instr)
  execute-Each amoxor_w instr =
      bind-Keeps Any Any _ _ (require_isa-Keeps _ instr) (λ _ _. execute_amo-Keeps mem q _ instr)
  execute-Each amoand_w instr =
      bind-Keeps Any Any _ _ (require_isa-Keeps _ instr) (λ _ _. execute_amo-Keeps mem q _ instr)
  execute-Each amoor_w instr =
      bind-Keeps Any Any _ _ (require_isa-Keeps _ instr) (λ _ _. execute_amo-Keeps mem q _ instr)
  execute-Each amomin_w instr =
      bind-Keeps Any Any _ _ (require_isa-Keeps _ instr) (λ _ _. execute_amo-Keeps mem q _ instr)
  execute-Each amominu_w instr =
      bind-Keeps Any Any _ _ (require_isa-Keeps _ instr) (λ _ _. execute_amo-Keeps mem q _ instr)
  execute-Each amomax_w instr =
      bind-Keeps Any Any _ _ (require_isa-Keeps _ instr) (λ _ _. execute_amo-Keeps mem q _ instr)
  execute-Each amomaxu_w instr =
      bind-Keeps Any Any _ _ (require_isa-Keeps _ instr) (λ _ _. execute_amo-Keeps mem q _ instr)
  execute-Each undef instr = raise-Keeps Any 2 instr
  execute-Each lwu instr = raise-Keeps Any 2 instr
  execute-Each ld instr = raise-Keeps Any 2 instr
  execute-Each sd instr = raise-Keeps Any 2 instr
  execute-Each addiw instr = raise-Keeps Any 2 instr
  execute-Each slliw instr = raise-Keeps Any 2 instr
  execute-Each srliw instr = raise-Keeps Any 2 instr
  execute-Each sraiw instr = raise-Keeps Any 2 instr
  execute-Each addw instr = raise-Keeps Any 2 instr
  execute-Each subw instr = raise-Keeps Any 2 instr
  execute-Each sllw instr = raise-Keeps Any 2 instr
  execute-Each srlw instr = raise-Keeps Any 2 instr
  execute-Each sraw instr = raise-Keeps Any 2 instr
  execute-Each mulw instr = raise-Keeps Any 2 instr
  execute-Each divw instr = raise-Keeps Any 2 instr
  execute-Each divuw instr = raise-Keeps Any 2 instr
  execute-Each remw instr = raise-Keeps Any 2 instr
  execute-Each remuw instr = raise-Keeps Any 2 instr
  execute-Each lr_d instr = raise-Keeps Any 2 instr
  execute-Each sc_d instr = raise-Keeps Any 2 instr
  execute-Each amoswap_d instr = raise-Keeps Any 2 instr
  execute-Each amoadd_d instr = raise-Keeps Any 2 instr
  execute-Each amoxor_d instr = raise-Keeps Any 2 instr
  execute-Each amoand_d instr = raise-Keeps Any 2 instr
  execute-Each amoor_d instr = raise-Keeps Any 2 instr
  execute-Each amomin_d instr = raise-Keeps Any 2 instr
  execute-Each amomax_d instr = raise-Keeps Any 2 instr
  execute-Each amominu_d instr = raise-Keeps Any 2 instr
  execute-Each amomaxu_d instr = raise-Keeps Any 2 instr
  execute-Each fcvt_l_s instr = raise-Keeps Any 2 instr
  execute-Each fcvt_lu_s instr = raise-Keeps Any 2 instr
  execute-Each fcvt_s_l instr = raise-Keeps Any 2 instr
  execute-Each fcvt_s_lu instr = raise-Keeps Any 2 instr
  execute-Each fcvt_l_d instr = raise-Keeps Any 2 instr
  execute-Each fcvt_lu_d instr = raise-Keeps Any 2 instr
  execute-Each fmv_x_d instr = raise-Keeps Any 2 instr
  execute-Each fcvt_d_l instr = raise-Keeps Any 2 instr
  execute-Each fcvt_d_lu instr = raise-Keeps Any 2 instr
  execute-Each fmv_d_x instr = raise-Keeps Any 2 instr
  execute-Each other instr = tt

  -- The same for an instruction that has a case.
  pub execute-IsValid :
      (op : Mapping) (instr : ℕ) (action : Action M (Unit {0}))
      → execute mem op instr ≡ some action
      → (s : Iss M) → IsValid s
      → After s Any (action s)
  execute-IsValid op instr action case s valid = subst Each case (execute-Each op instr) s valid
