-- ===== src/Mmu/Tests.antt =====
-- A two-level Sv32 table in a small memory, walked and walked again.
use rvvp.Base.{
  ℕ, ◌+◌, ◌*◌, ◌/◌, ◌%◌, ◌^◌, ◌≡◌, ◌≢◌, inl, refl, ◌==◌, if◌then◌else◌, false, true, arith,
}
use rvvp.Core.Privilege.{supervisor_mode}
use rvvp.Core.Result.{ok, stop, simulation_trap, load, store}
use rvvp.Mmu.Pte.{VmInfo, Csrs, PteMemory, IsWordMemory, decode_vm_info, check_vaddr_extension}
use rvvp.Mmu.Walk.{
  leaf_denied, leaf_paddr, update_flags, update_ad, round_at, pte_paddr_of, load_pte, walk_levels,
  walk,
}
use rvvp.Mmu.Tlb.{
  Mmu, update_tlb, effective_mode, flush_tlb, tlb_ppn, lookup_or_walk,
  translate_virtual_to_physical_addr,
}
use rvvp.Mmu.Whole.{Walked, walk-iff-Translates}
use rvvp.Mmu.Faults.{NeverStops, page_fault_trap, walk_levels-stop}
use rvvp.Mmu.Reuse.{
  IsPageTlb, flush_tlb-IsPageTlb, lookup_or_walk-IsPageTlb, translate_again,
  translate_again_truncated,
}

abbrev Cells : Type 0
Cells = ℕ → ℕ

abbrev cells : PteMemory Cells
cells = record {
  mmu_load_pte32 = λ a m. ok (m a % 2 ^ 32);
  mmu_load_pte64 = λ a m. ok (m a % 2 ^ 64);
  mmu_store_pte32 = λ a v m. ok (λ b. if a == b then v else m b);
}

cells-IsWordMemory : IsWordMemory cells
cells-IsWordMemory = record {
  word32 = λ a m pte h. ground arith;
  word64 = λ a m pte h. ground arith;
}

cells-NeverStops : NeverStops cells
cells-NeverStops = record {
  loads32 = λ a m e h. cc h;
  loads64 = λ a m e h. cc h;
  stores = λ a v m e h. cc h;
}

-- The root table at 0x1000, a second table at 0x2000, and a page at 0x80001000 with all flags but U.
abbrev table : ℕ → Cells
table leaf_entry a = if a == 0x1004 then 2 * 1024 + 1 else if a == 0x2004 then leaf_entry else 0

abbrev low : Cells
low = table (0x80001 * 1024 + 0xcf)

-- The same with a page from 4 GiB on.
abbrev high : Cells
high = table (0x280001 * 1024 + 0xcf)

abbrev sv32 : Csrs
sv32 = record {
  prv = supervisor_mode;
  xlen = 32;
  satp_mode = 1;
  satp_ppn = 1;
  mprv = false;
  mpp = 0;
  sum = false;
  mxr = false;
}

abbrev start : Cells → Mmu Cells
start m = flush_tlb (record { tlb = λ _ _ _. record { ppn = 0; vpn = 0 }; mem = m })

walk-low : walk cells false sv32 0x00401234 store supervisor_mode low ≡ ok (0x80001234, low)
unfolding walk decode_vm_info check_vaddr_extension walk_levels pte_paddr_of load_pte round_at
    leaf_denied leaf_paddr update_ad update_flags
walk-low = refl

walk-iff-Translates_example :
    Walked cells false sv32 0x00401234 store supervisor_mode low 0x80001234 low
walk-iff-Translates_example =
    (walk-iff-Translates cells cells-IsWordMemory false sv32 0x00401234 store supervisor_mode low
        low 0x80001234).0
      walk-low

-- The buffer behind the first access.
abbrev filled : Cells → ℕ → Mmu Cells
filled m page = record {
  tlb = update_tlb (start m).tlb supervisor_mode store 1 (record { ppn = page; vpn = 0x401 });
  mem = m;
}

first_low :
    translate_virtual_to_physical_addr cells false sv32 0x00401234 store (start low)
    ≡ ok (0x80001234, filled low 0x80001000)
unfolding translate_virtual_to_physical_addr lookup_or_walk effective_mode flush_tlb tlb_ppn walk
    decode_vm_info check_vaddr_extension walk_levels pte_paddr_of load_pte round_at leaf_denied
    leaf_paddr update_ad update_flags
first_low = refl

first_high :
    translate_virtual_to_physical_addr cells false sv32 0x00401234 store (start high)
    ≡ ok (0x280001234, filled high 0x80001000)
unfolding translate_virtual_to_physical_addr lookup_or_walk effective_mode flush_tlb tlb_ppn walk
    decode_vm_info check_vaddr_extension walk_levels pte_paddr_of load_pte round_at leaf_denied
    leaf_paddr update_ad update_flags
first_high = refl

not_machine : effective_mode sv32 store ≢ 3
unfolding effective_mode
not_machine h = omega arith

translate_again_example :
    translate_virtual_to_physical_addr cells false sv32 0x00401ffc store (filled low 0x80001000)
    ≡ ok (0x80001234 / 2 ^ 12 * 2 ^ 12 + 0x00401ffc % 2 ^ 12, filled low 0x80001000)
translate_again_example =
    translate_again cells false sv32 (omega arith) 0x00401234 0x00401ffc store (start low)
      not_machine (flush_tlb-IsPageTlb _) (omega arith) refl first_low (omega arith)

translate_again_truncated_example :
    (translate_virtual_to_physical_addr cells false sv32 0x00401234 store (filled high 0x80001000)
      ≡ ok (0x280001234 % 2 ^ 32 / 2 ^ 12 * 2 ^ 12 + 0x00401234 % 2 ^ 12, filled high 0x80001000))
    × (0x280001234 % 2 ^ 32 / 2 ^ 12 * 2 ^ 12 + 0x00401234 % 2 ^ 12 ≢ 0x280001234)
translate_again_truncated_example =
    translate_again_truncated cells false sv32 (omega arith) 0x00401234 store (start high)
      not_machine (flush_tlb-IsPageTlb _) (omega arith) first_high (omega arith)

first_lookup :
    lookup_or_walk cells false sv32 0x00401234 store supervisor_mode (start low)
    ≡ ok (0x80001234, filled low 0x80001000)
unfolding lookup_or_walk flush_tlb tlb_ppn walk decode_vm_info check_vaddr_extension walk_levels
    pte_paddr_of load_pte round_at leaf_denied leaf_paddr update_ad update_flags
first_lookup = refl

lookup_or_walk-IsPageTlb_example : IsPageTlb (filled low 0x80001000)
lookup_or_walk-IsPageTlb_example =
    lookup_or_walk-IsPageTlb cells false sv32 0x00401234 store supervisor_mode (start low)
      (flush_tlb-IsPageTlb _) first_lookup

abbrev tables : VmInfo
tables = record { levels = 2; idxbits = 10; ptesize = 4; ptbase = 0x1000 }

-- No entry maps 0x00801000.
unmapped :
    walk_levels cells false sv32 tables load true 0x00801000 2 0x1000 low
    ≡ stop (simulation_trap (record { reason = 13; mtval = 0x00801000; mtval2_htval = 0 }))
unfolding walk_levels pte_paddr_of load_pte round_at
unmapped = refl

walk_levels-stop_example :
    simulation_trap (record { reason = 13; mtval = 0x00801000; mtval2_htval = 0 })
    ≡ simulation_trap (page_fault_trap load 0x00801000)
walk_levels-stop_example =
    walk_levels-stop cells cells-NeverStops false sv32 tables (inl refl) load true 0x00801000 2
      0x1000 low unmapped
