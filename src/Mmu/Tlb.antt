-- ===== src/Mmu/Tlb.antt =====
-- mmu.h: `GenericMMU::translate_virtual_to_physical_addr` and `flush_tlb`. The buffer is indexed by
-- privilege mode, kind of access and the low 8 bits of the virtual page number.
use rvvp.Base.{
  ℕ, ◌/◌, ◌%◌, ◌^◌, ◌-◌, Bool, true, false, not, ◌&&◌, ◌||◌, ◌==◌, if◌then◌else◌, bit_and, bit_or,
}
use rvvp.Base.Bits.{bit_not}
use rvvp.Core.Privilege.{user_mode, supervisor_mode, machine_mode}
use rvvp.Core.Result.{Result, ok, check, AccessType, fetch, load, store, ◌>>=◌, ◌>>◌}
use rvvp.Mmu.Pte.{Csrs, PteMemory, satp_mode_bare, pgshift, pgmask}
use rvvp.Mmu.Walk.{is_fetch, walk}

-- `tlb_entry_t`
pub record TlbEntry : Type 0 where
  pub ppn : ℕ
  pub vpn : ℕ

abbrev pub tlb_entries : ℕ
tlb_entries = 256

abbrev pub Tlb : Type 0
Tlb = ℕ → AccessType → ℕ → TlbEntry

pub record Mmu (M : Type 0) : Type 0 where
  pub tlb : Tlb
  pub mem : M

abbrev pub type_eq : AccessType → AccessType → Bool
type_eq fetch fetch = true
type_eq load load = true
type_eq store store = true
type_eq _ _ = false

abbrev pub update_tlb : Tlb → ℕ → AccessType → ℕ → TlbEntry → Tlb
update_tlb t mode type idx x mode' type' idx' =
    if mode == mode' && type_eq type type' && idx == idx' then x else t mode' type' idx'

-- The `memset` to -1.
unfoldable pub flush_tlb : {M : Type 0} → Mmu M → Mmu M
flush_tlb s = record s { tlb = λ _ _ _. record { ppn = 2 ^ 64 - 1; vpn = 2 ^ 64 - 1 } }

-- mprv replaces the mode of a load or a store.
unfoldable pub effective_mode : Csrs → AccessType → ℕ
effective_mode c type = if not (is_fetch type) && c.mprv then c.mpp else c.prv

-- `paddr & ~PGMASK`, where PGMASK is a 32-bit `unsigned`: so is its complement.
unfoldable pub tlb_ppn : ℕ → ℕ
tlb_ppn paddr = bit_and paddr (bit_not 32 pgmask)

module _ {M : Type 0} (mem : PteMemory M) (page_fault_on_ad : Bool) (c : Csrs) where
  -- The part below the two early returns.
  unfoldable pub lookup_or_walk : ℕ → AccessType → ℕ → Mmu M → Result (ℕ × Mmu M)
  lookup_or_walk vaddr type mode s = do
    check (mode == user_mode || mode == supervisor_mode)
    let vpn = vaddr / 2 ^ pgshift
    let idx = vpn % tlb_entries
    let x = s.tlb mode type idx
    if x.vpn == vpn then ok (bit_or x.ppn (bit_and vaddr pgmask), s) else (do
      (paddr, m) ← walk mem page_fault_on_ad c vaddr type mode s.mem
      let x' : TlbEntry = record { ppn = tlb_ppn paddr; vpn = vpn }
      ok (paddr, record { tlb = update_tlb s.tlb mode type idx x'; mem = m }))

  unfoldable pub translate_virtual_to_physical_addr : ℕ → AccessType → Mmu M → Result (ℕ × Mmu M)
  translate_virtual_to_physical_addr vaddr type s =
      let mode = effective_mode c type in
      if c.satp_mode == satp_mode_bare
      then ok (vaddr, s)
      else if mode == machine_mode
      then ok (vaddr, s)
      else lookup_or_walk vaddr type mode s
