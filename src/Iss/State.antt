-- ===== src/Iss/State.antt =====
-- core/rv32/iss.h and iss.cpp: the state that the integer instructions of `exec_step` read and write,
-- and its basic actions. An action that throws keeps the changes that were made before.
use rvvp.Base.{ℕ, ◌%◌, ◌^◌, Bool, ◌==◌, ◌&&◌, not, if◌then◌else◌, bit_and}
use rvvp.Base.Bits.{truth, bit_not}
use rvvp.Core.Result.{Result, ok, stop, simulation_trap, assertion}
use rvvp.Iss.Alu.{word}

pub data CoreExecStatus : Type 0 where
  runnable hit_breakpoint terminated : CoreExecStatus

-- A word of a register is the 32 bits of an `int32_t`. `M` is the state of the memory.
pub record Iss (M : Type 0) : Type 0 where
  pub regs : ℕ → ℕ
  pub pc : ℕ
  pub last_pc : ℕ
  pub misa : ℕ
  pub lr_sc_counter : ℕ
  pub status : CoreExecStatus
  pub memory : M

abbrev pub Action : Type 0 → Type 0 → Type 0
Action M A = Iss M → Result A × Iss M

abbrev pub update : ℕ → ℕ → (ℕ → ℕ) → ℕ → ℕ
update idx value regs i = if i == idx then value else regs i

module _ {M : Type 0} where
  unfoldable pub proceed : {A B : Type 0} → Result A × Iss M → (A → Action M B) → Result B × Iss M
  proceed (ok a, t) k = k a t
  proceed (stop why, t) k = (stop why, t)

  infixl 5 ◌>>=◌
  infixl 5 ◌>>◌
  unfoldable pub ◌>>=◌ : {A B : Type 0} → Action M A → (A → Action M B) → Action M B
  (first >>= k) s = proceed (first s) k

  abbrev pub ◌>>◌ : {B : Type 0} → Action M (Unit {0}) → Action M B → Action M B
  first >> second = first >>= λ _. second

  unfoldable pub pure : {A : Type 0} → A → Action M A
  pure a s = (ok a, s)

  -- `raise_trap(exc, mtval)`
  unfoldable pub raise : {A : Type 0} → ℕ → ℕ → Action M A
  raise exc mtval s =
      (stop (simulation_trap (record { reason = exc; mtval = mtval; mtval2_htval = 0 })), s)

  -- `regs[idx]`; the indices are fields of five bits.
  unfoldable pub read_reg : ℕ → Action M ℕ
  read_reg idx s = (ok (s.regs idx), s)

  unfoldable pub write_reg : ℕ → ℕ → Action M (Unit {0})
  write_reg idx value s = (ok tt, record s { regs = update idx (word value) s.regs })

  unfoldable pub get_pc : Action M ℕ
  get_pc s = (ok s.pc, s)

  unfoldable pub get_last_pc : Action M ℕ
  get_last_pc s = (ok s.last_pc, s)

  unfoldable pub set_lr_sc_counter : (ℕ → ℕ) → Action M (Unit {0})
  set_lr_sc_counter f s = (ok tt, record s { lr_sc_counter = f s.lr_sc_counter })

  unfoldable pub set_status : CoreExecStatus → Action M (Unit {0})
  set_status status s = (ok tt, record s { status = status })

  -- REQUIRE_ISA; `instr` is the word of the instruction.
  unfoldable pub require_isa : ℕ → ℕ → Action M (Unit {0})
  require_isa ext instr s = if truth (bit_and s.misa ext) then (ok tt, s) else raise 2 instr s

  abbrev pub has_c_extension : Iss M → Bool
  has_c_extension s = truth (bit_and s.misa (2 ^ 2))

  abbrev pub pc_alignment_mask : Iss M → ℕ
  pc_alignment_mask s = if has_c_extension s then bit_not 32 0x1 else bit_not 32 0x3

  unfoldable pub trap_check_pc_alignment : Action M (Unit {0})
  trap_check_pc_alignment s =
      if truth (bit_and s.pc 0x1)
      then (stop assertion, s)
      else if truth (bit_and s.pc 0x3) && not (has_c_extension s)
      then raise 0 s.pc s
      else (ok tt, s)

  -- An assignment to `pc`, and the check that follows it.
  unfoldable pub jump : ℕ → Action M (Unit {0})
  jump target s = trap_check_pc_alignment (record s { pc = word target })

  unfoldable pub trap_check_addr_alignment : ℕ → Bool → ℕ → Action M (Unit {0})
  trap_check_addr_alignment alignment is_load addr s =
      if truth (addr % alignment) then raise (if is_load then 4 else 6) addr s else (ok tt, s)
