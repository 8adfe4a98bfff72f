-- ===== src/Iss/Memory.antt =====
-- core/rv32/mem_if.h, `data_memory_if`, as the simulator calls it, and the instructions that access
-- the memory. The implementation of the interface is a parameter.
use rvvp.Base.{ℕ, ◌*◌, ◌%◌, ◌^◌, Bool, true, false, ◌==◌, if◌then◌else◌}
use rvvp.Core.Result.{Result, stop, simulation_trap}
use rvvp.Instr.Fields.{rd, rs1, rs2, i_imm, s_imm}
use rvvp.Iss.Alu.{word, add32}
use rvvp.Iss.State.{
  Action, ◌>>=◌, ◌>>◌, read_reg, write_reg, trap_check_addr_alignment, set_lr_sc_counter,
}

-- A load gives the bits of the number that it returns.
pub record DataMemory (M : Type 0) : Type 0 where
  pub load_word : M → ℕ → Result ℕ × M
  pub load_half : M → ℕ → Result ℕ × M
  pub load_uhalf : M → ℕ → Result ℕ × M
  pub load_byte : M → ℕ → Result ℕ × M
  pub load_ubyte : M → ℕ → Result ℕ × M
  pub store_word : M → ℕ → ℕ → Result (Unit {0}) × M
  pub store_half : M → ℕ → ℕ → Result (Unit {0}) × M
  pub store_byte : M → ℕ → ℕ → Result (Unit {0}) × M
  pub atomic_load_word : M → ℕ → Result ℕ × M
  pub atomic_store_word : M → ℕ → ℕ → Result (Unit {0}) × M
  pub atomic_load_reserved_word : M → ℕ → Result ℕ × M
  pub atomic_store_conditional_word : M → ℕ → ℕ → Result Bool × M

-- A call of the memory.
unfoldable pub on_memory : {M A : Type 0} → (M → Result A × M) → Action M A
on_memory f s = ((f s.memory).0, record s { memory = (f s.memory).1 })

-- The load instructions: the alignment that is checked, 1 where the source checks none.
unfoldable pub load : {M : Type 0} → (M → ℕ → Result ℕ × M) → ℕ → ℕ → Action M (Unit {0})
load f alignment instr = do
  base ← read_reg (rs1 instr)
  trap_check_addr_alignment alignment true (add32 base (i_imm instr))
  value ← on_memory (λ m. f m (add32 base (i_imm instr)))
  write_reg (rd instr) value

-- The store instructions, with the width that the value is cut to.
unfoldable pub store :
    {M : Type 0} → (M → ℕ → ℕ → Result (Unit {0}) × M) → ℕ → ℕ → Action M (Unit {0})
store f bytes instr = do
  base ← read_reg (rs1 instr)
  trap_check_addr_alignment bytes false (add32 base (s_imm instr))
  value ← read_reg (rs2 instr)
  on_memory (λ m. f m (add32 base (s_imm instr)) (value % 2 ^ (8 * bytes)))

unfoldable pub load_reserved : {M : Type 0} → DataMemory M → ℕ → Action M (Unit {0})
load_reserved mem instr = do
  addr ← read_reg (rs1 instr)
  trap_check_addr_alignment 4 true addr
  value ← on_memory (λ m. mem.atomic_load_reserved_word m addr)
  write_reg (rd instr) value
  set_lr_sc_counter (λ n. if n == 0 then 17 else n)

unfoldable pub store_conditional : {M : Type 0} → DataMemory M → ℕ → Action M (Unit {0})
store_conditional mem instr = do
  addr ← read_reg (rs1 instr)
  trap_check_addr_alignment 4 false addr
  val ← read_reg (rs2 instr)
  write_reg (rd instr) 1
  stored ← on_memory (λ m. mem.atomic_store_conditional_word m addr val)
  write_reg (rd instr) (if stored then 0 else 1)
  set_lr_sc_counter (λ _. 0)

-- What `execute_amo` makes of a trap of its load: an access fault of a store.
abbrev pub amo_fault : {A : Type 0} → Result A → Result A
amo_fault (stop (simulation_trap e)) =
    stop (simulation_trap (record e { reason = if e.reason == 5 then 7 else e.reason }))
amo_fault r = r

unfoldable pub execute_amo : {M : Type 0} → DataMemory M → (ℕ → ℕ → ℕ) → ℕ → Action M (Unit {0})
execute_amo mem operation instr = do
  addr ← read_reg (rs1 instr)
  trap_check_addr_alignment 4 false addr
  old ←
      on_memory (λ m. (amo_fault (mem.atomic_load_word m addr).0, (mem.atomic_load_word m addr).1))
  operand ← read_reg (rs2 instr)
  on_memory (λ m. mem.atomic_store_word m addr (word (operation (word old) operand)))
  write_reg (rd instr) (word old)
