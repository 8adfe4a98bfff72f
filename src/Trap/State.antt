-- ===== src/Trap/State.antt =====
-- csr.h and iss.h: the registers that trap entry and return read and write. A register that the source
-- reads by its fields is a record of them; a field of one bit that is only tested is a `Bool`.
use rvvp.Base.{ℕ, Bool, ◌*◌, ◌^◌, ◌%◌, ◌==◌, if◌then◌else◌}
use rvvp.Core.Privilege.{supervisor_mode, machine_mode}
use rvvp.Core.Result.{Result}

pub record Mstatus : Type 0 where
  pub sie : Bool
  pub mie : Bool
  pub spie : Bool
  pub mpie : Bool
  pub spp : ℕ
  pub mpp : ℕ
  pub mprv : Bool
  pub tsr : Bool

-- `csr_vsstatus` and `csr_hstatus`
pub record Vsstatus : Type 0 where
  pub sie : Bool
  pub spie : Bool
  pub spp : ℕ

pub record Hstatus : Type 0 where
  pub spv : ℕ
  pub spvp : ℕ
  pub vtsr : Bool

-- `csr_mcause`, which scause and vscause are too.
pub record Cause : Type 0 where
  pub interrupt : Bool
  pub exception_code : ℕ

-- `csr_mtvec`, which stvec and vstvec are too: `mode` has two bits and `base` thirty.
pub record Tvec : Type 0 where
  pub mode : ℕ
  pub base : ℕ

abbrev pub vectored : ℕ
vectored = 1

abbrev pub snps_nested_vectored : ℕ
snps_nested_vectored = 3

abbrev pub get_base_address : Tvec → ℕ
get_base_address tvec = tvec.base * 2 ^ 2 % 2 ^ 32

-- The registers for one level of trap handlers: the program counter that was left, the cause, the
-- address, the guest address and the instruction of the trap, the vector, and the stack pointer to swap
-- in. There are no vshtval and vshtinst; nothing reads or writes those of the virtual supervisor.
pub record Level : Type 0 where
  pub epc : ℕ
  pub cause : Cause
  pub tval : ℕ
  pub tval2 : ℕ
  pub tinst : ℕ
  pub tvec : Tvec
  pub tsp : ℕ

-- A hart. `sp` is `regs[RegFile::sp]`, and `instr` the word of the instruction that is executed. `M` is
-- the state of what the hart calls: the memory interface and the interrupt files.
pub record Hart (M : Type 0) : Type 0 where
  pub prv : ℕ
  pub pc : ℕ
  pub last_pc : ℕ
  pub sp : ℕ
  pub instr : ℕ
  pub mstatus : Mstatus
  pub mpv : ℕ
  pub vsstatus : Vsstatus
  pub hstatus : Hstatus
  pub medeleg : ℕ
  pub hedeleg : ℕ
  pub mtsp_enabled : Bool  -- menvcfg.mtsp
  pub vgtsp_enabled : Bool  -- henvcfg.vgtsp
  pub htsp_enabled : Bool  -- henvcfg.htsp
  pub stsp_enabled : Bool  -- senvcfg.stsp
  pub htsp : ℕ  -- beside `tsp` of the supervisor, which is stsp
  pub m : Level
  pub s : Level
  pub vs : Level
  pub lr_sc_counter : ℕ
  pub ivt_pending : Bool
  pub ivt_entry_address : ℕ
  pub error_on_zero_traphandler : Bool
  pub called : M

-- The operations that are called: `atomic_unlock` and `load_word` of the memory interface, and, of the
-- interrupt files, `nv_mode_get_ivt_line_num` and the effect of `notify_irq_taken`.
pub record Callees (M : Type 0) : Type 0 where
  pub atomic_unlock : M → M
  pub load_word : ℕ → M → Result ℕ × M
  pub nv_mode_get_ivt_line_num : ℕ → M → Result ℕ
  pub notify_irq_taken : ℕ → M → Result M

module _ {M : Type 0} where
  -- The registers of a level that takes interrupts.
  abbrev pub registers : ℕ → Hart M → Level
  registers level h =
      if level == machine_mode then h.m else if level == supervisor_mode then h.s else h.vs
