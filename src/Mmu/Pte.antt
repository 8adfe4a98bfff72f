-- ===== src/Mmu/Pte.antt =====
-- mmu.h: the constants, `pte_t`, `vm_info`, the registers that the MMU reads, and the memory
-- interface `mmu_memory_if` (mmu_mem_if.h) that it loads page-table entries through.
use rvvp.Base.{ℕ, ◌+◌, ◌-◌, ◌*◌, ◌/◌, ◌%◌, ◌^◌, ◌<◌, ◌≡◌, Bool, ◌||◌, ◌==◌, if◌then◌else◌, bit_and}
use rvvp.Base.Bits.{truth}
use rvvp.Core.Result.{Result, ok, stop, runtime_error}

abbrev pub pgshift : ℕ
pgshift = 12

abbrev pub pte_ppn_shift : ℕ
pte_ppn_shift = 10

-- `PGMASK`, an `unsigned`
abbrev pub pgmask : ℕ
pgmask = 2 ^ 12 - 1

abbrev pub pte_v : ℕ → Bool
pte_v value = truth (bit_and value (2 ^ 0))

abbrev pub pte_r : ℕ → Bool
pte_r value = truth (bit_and value (2 ^ 1))

abbrev pub pte_w : ℕ → Bool
pte_w value = truth (bit_and value (2 ^ 2))

abbrev pub pte_x : ℕ → Bool
pte_x value = truth (bit_and value (2 ^ 3))

abbrev pub pte_u : ℕ → Bool
pte_u value = truth (bit_and value (2 ^ 4))

abbrev pub pte_a : ℕ
pte_a = 2 ^ 6

abbrev pub pte_d : ℕ
pte_d = 2 ^ 7

pub record VmInfo : Type 0 where
  pub levels : ℕ
  pub idxbits : ℕ
  pub ptesize : ℕ
  pub ptbase : ℕ

-- What `GenericMMU` reads of its core: `prv`, `xlen`, and fields of satp and mstatus.
pub record Csrs : Type 0 where
  pub prv : ℕ
  pub xlen : ℕ
  pub satp_mode : ℕ
  pub satp_ppn : ℕ
  pub mprv : Bool
  pub mpp : ℕ
  pub sum : Bool
  pub mxr : Bool

-- `mmu_memory_if`, over the state `M` of the memory system. A call may trap.
pub record PteMemory (M : Type 0) : Type 0 where
  pub mmu_load_pte32 : ℕ → M → Result ℕ
  pub mmu_load_pte64 : ℕ → M → Result ℕ
  pub mmu_store_pte32 : ℕ → ℕ → M → Result M

abbrev pub satp_mode_bare : ℕ
satp_mode_bare = 0

abbrev pub vm_info : Csrs → ℕ → ℕ → ℕ → VmInfo
vm_info c levels idxbits ptesize = record {
  levels = levels;
  idxbits = idxbits;
  ptesize = ptesize;
  ptbase = c.satp_ppn * 2 ^ pgshift % 2 ^ 64;
}

-- `decode_vm_info`, after its assertion on the privilege level. SATP_MODE_SV32 is 1, SV39 8,
-- SV48 9, SV57 10 and SV64 11.
unfoldable pub decode_vm_info : Csrs → Result VmInfo
decode_vm_info c =
    if c.satp_mode == 1
    then ok (vm_info c 2 10 4)
    else if c.satp_mode == 8
    then ok (vm_info c 3 9 8)
    else if c.satp_mode == 9
    then ok (vm_info c 4 9 8)
    else if c.satp_mode == 10
    then ok (vm_info c 5 9 8)
    else if c.satp_mode == 11
    then ok (vm_info c 6 9 8)
    else stop runtime_error

-- `check_vaddr_extension`: the bits from the highest translated one on are all alike.
unfoldable pub check_vaddr_extension : Csrs → ℕ → VmInfo → Bool
check_vaddr_extension c vaddr vm =
    let highbit = vm.idxbits * vm.levels + pgshift - 1 in
    let ext_mask = 2 ^ (c.xlen - highbit) - 1 in
    let bits = bit_and (vaddr / 2 ^ highbit) ext_mask in bits == 0 || bits == ext_mask

-- A loaded entry is a 64-bit word.
pub record IsWordMemory {M : Type 0} (mem : PteMemory M) : Type 0 where
  pub word32 : (a : ℕ) (m : M) (pte : ℕ) → mem.mmu_load_pte32 a m ≡ ok pte → pte < 2 ^ 64
  pub word64 : (a : ℕ) (m : M) (pte : ℕ) → mem.mmu_load_pte64 a m ≡ ok pte → pte < 2 ^ 64
