-- ===== src/Mmu/Faults.antt =====
-- How a walk ends when it returns no address.
use rvvp.Base.{
  ℕ, zero, suc, ◌⊎◌, ◌*◌, ◌/◌, ◌%◌, ◌^◌, ◌≡◌, ◌≢◌, Bool, inl, inr, arith, bit_or, if◌then◌else◌,
}
use rvvp.Core.Result.{
  Result, ok, stop, Stop, simulation_trap, SimulationTrap, AccessType, fetch, load, store, ◌>>=◌,
  >>=-eq-stop, raise_trap,
}
use rvvp.Mmu.Pte.{VmInfo, Csrs, PteMemory, pte_a, pte_d}
use rvvp.Mmu.Walk.{
  Round, descend, page_fault, leaf, walk_levels, page_fault_cause, update_ad, update_flags,
  round_at, leaf_paddr, load_pte, pte_paddr_of, is_store,
}

-- A memory system whose loads and stores all return.
pub record NeverStops {M : Type 0} (mem : PteMemory M) : Type 0 where
  pub loads32 : (a : ℕ) (m : M) (e : Stop) → mem.mmu_load_pte32 a m ≢ stop e
  pub loads64 : (a : ℕ) (m : M) (e : Stop) → mem.mmu_load_pte64 a m ≢ stop e
  pub stores : (a v : ℕ) (m : M) (e : Stop) → mem.mmu_store_pte32 a v m ≢ stop e

-- The cause of a page fault, as the privileged architecture numbers it for the kind of access.
abbrev pub fault_code : AccessType → ℕ
fault_code fetch = 12
fault_code load = 13
fault_code store = 15

-- The trap of a page fault: its cause, and the address that was accessed.
abbrev pub page_fault_trap : AccessType → ℕ → SimulationTrap
page_fault_trap type vaddr = record { reason = fault_code type; mtval = vaddr; mtval2_htval = 0 }

module _ {M : Type 0} (mem : PteMemory M) (returns : NeverStops mem) (page_fault_on_ad : Bool)
    (c : Csrs) (vm : VmInfo) (sized : (vm.ptesize ≡ 4) ⊎ (vm.ptesize ≡ 8)) (type : AccessType)
    (s_mode : Bool) (vaddr : ℕ) where
  update_flags-ne-stop :
      (ad a pte paddr : ℕ) (m : M) (e : Stop)
      → update_flags mem page_fault_on_ad ad a pte paddr m ≢ stop e
  unfolding update_flags
  update_flags-ne-stop ad a pte paddr m e h =
      ground (arith, returns.stores a (bit_or pte ad % 2 ^ 32) m e)

  update_ad-ne-stop :
      (a pte paddr : ℕ) (m : M) (e : Stop)
      → update_ad mem page_fault_on_ad type a pte paddr m ≢ stop e
  unfolding update_ad
  update_ad-ne-stop a pte paddr m e h =
      update_flags-ne-stop (bit_or pte_a (if is_store type then pte_d else 0)) a pte paddr m e h

  round_at-ne-stop :
      (i a pte : ℕ) (m : M) (e : Stop)
      → round_at mem page_fault_on_ad c vm type s_mode vaddr i a pte m ≢ stop e
  unfolding round_at
  round_at-ne-stop i a pte m e h =
      ground (arith, update_ad-ne-stop a pte (leaf_paddr vaddr (pte / 2 ^ 10) (i * vm.idxbits)) m e)

  load_pte-ne-stop : (a : ℕ) (m : M) (e : Stop) → load_pte mem vm a m ≢ stop e
  unfolding load_pte
  load_pte-ne-stop a m e h = ground (arith, returns.loads32 a m e, returns.loads64 a m e)

  raised :
      {e : Stop}
      → ◌≡◌ {A = Result (ℕ × M)} (raise_trap (page_fault_cause type) vaddr) (stop e)
      → e ≡ simulation_trap (page_fault_trap type vaddr)
  raised h = ground arith

  abbrev steps : ℕ → ℕ → M → Result (ℕ × M)
  steps = walk_levels mem page_fault_on_ad c vm type s_mode vaddr

  abbrev returned : ℕ → M → Round M → Result (ℕ × M)
  returned i m r = elim r [
    | descend base' ↦ steps i base' m
    | page_fault ↦ raise_trap (page_fault_cause type) vaddr
    | leaf paddr m' ↦ ok (paddr, m')
  ]

  returned-stop :
      (i : ℕ) (m : M) {e : Stop}
      → ((base : ℕ) → steps i base m ≡ stop e → e ≡ simulation_trap (page_fault_trap type vaddr))
      → (r : Round M) → returned i m r ≡ stop e
      → e ≡ simulation_trap (page_fault_trap type vaddr)
  returned-stop i m ih (descend base) h = ih base h
  returned-stop i m ih page_fault h = raised h
  returned-stop i m ih (leaf paddr m') h = cc h

  -- Over a memory whose loads and stores all return, and for entries of 4 or 8 bytes, the loop of the
  -- walk stops with no other error than the page fault of the access at its address: with the cause
  -- 12 for a fetch, 13 for a load and 15 for a store.
  pub walk_levels-stop :
      (n base : ℕ) (m : M) {e : Stop}
      → steps n base m ≡ stop e
      → e ≡ simulation_trap (page_fault_trap type vaddr)
  unfolding walk_levels
  walk_levels-stop zero base m h = raised h
  walk_levels-stop (suc i) base m {e} h =
      elim (>>=-eq-stop (load_pte mem vm place m) (λ pte. run pte >>= returned i m) h) [
        | inl failed ↦ absurd (load_pte-ne-stop place m e failed)
        | inr (pte, _, h') ↦ elim (>>=-eq-stop (run pte) (returned i m) h') [
          | inl failed ↦ absurd (round_at-ne-stop i place pte m e failed)
          | inr (r, _, last) ↦ returned-stop i m (λ base'. walk_levels-stop i base' m) r last
        ]
      ]
    where
      place : ℕ
      place = pte_paddr_of vm vaddr i base

      run : ℕ → Result (Round M)
      run pte = round_at mem page_fault_on_ad c vm type s_mode vaddr i place pte m
