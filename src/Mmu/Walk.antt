-- ===== src/Mmu/Walk.antt =====
-- mmu.h: `GenericMMU::walk`. A round of its loop ends in `continue` with a new base (descend), in
-- `break` (page_fault) or in `return` (leaf).
use rvvp.Base.{
  ℕ, zero, suc, ◌+◌, ◌-◌, ◌*◌, ◌/◌, ◌%◌, ◌^◌, Bool, true, false, not, ◌&&◌, ◌||◌, ◌==◌,
  if◌then◌else◌, bit_and, bit_or,
}
use rvvp.Base.Bits.{truth, bit_not}
use rvvp.Core.Privilege.{supervisor_mode, machine_mode}
use rvvp.Core.Result.{Result, ok, check, raise_trap, AccessType, fetch, load, store, ◌>>=◌, ◌>>◌}
use rvvp.Mmu.Pte.{
  VmInfo, Csrs, PteMemory, pgshift, pte_ppn_shift, pgmask, pte_v, pte_r, pte_w, pte_x, pte_u, pte_a,
  pte_d, decode_vm_info, check_vaddr_extension,
}

pub data Round (M : Type 0) : Type 0 where
  descend : ℕ → Round M
  page_fault : Round M
  leaf : ℕ → M → Round M

abbrev pub is_fetch : AccessType → Bool
is_fetch fetch = true
is_fetch _ = false

abbrev pub is_load : AccessType → Bool
is_load load = true
is_load _ = false

abbrev pub is_store : AccessType → Bool
is_store store = true
is_store _ = false

-- EXC_INSTR_PAGE_FAULT, EXC_LOAD_PAGE_FAULT, EXC_STORE_AMO_PAGE_FAULT
abbrev pub page_fault_cause : AccessType → ℕ
page_fault_cause fetch = 12
page_fault_cause load = 13
page_fault_cause store = 15

-- The conditions under which the loop breaks at a leaf, in their order.
unfoldable pub leaf_denied : Csrs → AccessType → Bool → ℕ → ℕ → ℕ → Bool
leaf_denied c type s_mode pte ppn ptshift =
    (is_fetch type && not (pte_x pte))
    || (is_load type && not (pte_r pte) && not (c.mxr && pte_x pte))
    || (is_store type && not (pte_r pte && pte_w pte))
    || (if pte_u pte then s_mode && (is_fetch type || not c.sum) else not s_mode)
    || truth (bit_and ppn (2 ^ ptshift - 1))

-- The address that the loop returns.
unfoldable pub leaf_paddr : ℕ → ℕ → ℕ → ℕ
leaf_paddr vaddr ppn ptshift =
    let mask = 2 ^ ptshift - 1 in
    let vpn = vaddr / 2 ^ pgshift in
    let pgoff = bit_and vaddr pgmask in
    bit_or (bit_or (bit_and ppn (bit_not 64 mask)) (bit_and vpn mask) * 2 ^ pgshift % 2 ^ 64) pgoff

-- The address of the entry for `vaddr` at level `i` of the table at `base`.
unfoldable pub pte_paddr_of : VmInfo → ℕ → ℕ → ℕ → ℕ
pte_paddr_of vm vaddr i base =
    let vpn_field = bit_and (vaddr / 2 ^ (pgshift + i * vm.idxbits)) (2 ^ vm.idxbits - 1) in
    (base + vpn_field * vm.ptesize) % 2 ^ 64

-- The load of an entry, behind the assertion on its size; a memory system is always there.
unfoldable pub load_pte : {M : Type 0} → PteMemory M → VmInfo → ℕ → M → Result ℕ
load_pte mem vm pte_paddr m = do
  check (vm.ptesize == 4 || vm.ptesize == 8)
  if vm.ptesize == 4 then mem.mmu_load_pte32 pte_paddr m else mem.mmu_load_pte64 pte_paddr m

module _ {M : Type 0} (mem : PteMemory M) (page_fault_on_ad : Bool) where
  -- The update of the flags `ad` of an entry.
  unfoldable pub update_flags : ℕ → ℕ → ℕ → ℕ → M → Result (Round M)
  update_flags ad pte_paddr pte paddr m =
      if bit_and pte ad == ad
      then ok (leaf paddr m)
      else if page_fault_on_ad
      then ok page_fault
      else (do m' ← mem.mmu_store_pte32 pte_paddr (bit_or pte ad % 2 ^ 32) m; ok (leaf paddr m'))

  -- A for every access, D for a store.
  unfoldable pub update_ad : AccessType → ℕ → ℕ → ℕ → M → Result (Round M)
  update_ad type = update_flags (bit_or pte_a (if is_store type then pte_d else 0))

module _ {M : Type 0} (mem : PteMemory M) (page_fault_on_ad : Bool) (c : Csrs) where
  module _ (vm : VmInfo) (type : AccessType) (s_mode : Bool) (vaddr : ℕ) where
    -- One round at level `i`, once the entry is loaded.
    unfoldable pub round_at : ℕ → ℕ → ℕ → M → Result (Round M)
    round_at i pte_paddr pte m =
        let ptshift = i * vm.idxbits in
        let ppn = pte / 2 ^ pte_ppn_shift in
        if not (pte_v pte) || (not (pte_r pte) && pte_w pte)
        then ok page_fault
        else if not (pte_r pte) && not (pte_x pte)
        then ok (descend (ppn * 2 ^ pgshift % 2 ^ 64))
        else if leaf_denied c type s_mode pte ppn ptshift
        then ok page_fault
        else update_ad mem page_fault_on_ad type pte_paddr pte (leaf_paddr vaddr ppn ptshift) m

    -- The loop from level `n - 1` down to 0, and the trap behind it.
    unfoldable pub walk_levels : ℕ → ℕ → M → Result (ℕ × M)
    walk_levels zero base m = raise_trap (page_fault_cause type) vaddr
    walk_levels (suc i) base m = do
      let pte_paddr = pte_paddr_of vm vaddr i base
      pte ← load_pte mem vm pte_paddr m
      r ← round_at i pte_paddr pte m
      elim r [
        | descend base' ↦ walk_levels i base' m
        | page_fault ↦ raise_trap (page_fault_cause type) vaddr
        | leaf paddr m' ↦ ok (paddr, m')
      ]

  -- `walk`, with the assertion of `decode_vm_info` on the privilege level.
  unfoldable pub walk : ℕ → AccessType → ℕ → M → Result (ℕ × M)
  walk vaddr type mode m = do
    check (not (mode == machine_mode))
    vm ← decode_vm_info c
    let levels = if check_vaddr_extension c vaddr vm then vm.levels else 0
    walk_levels vm type (mode == supervisor_mode) vaddr levels vm.ptbase m
