-- ===== src/Mmu/Spec.antt =====
-- What a page-table walk is meant to do, in the words of the privileged architecture: entries by
-- their bits, addresses by division and remainder, a derivation for each successful walk.
use rvvp.Base.{
  ℕ, suc, ◌+◌, ◌*◌, ◌/◌, ◌%◌, ◌^◌, ◌≡◌, ◌⊎◌, Bool, true, false, ◌==◌, if◌then◌else◌, bit_or,
}
use rvvp.Base.Bits.{test_bit}
use rvvp.Core.Result.{Result, ok, AccessType, fetch, load, store}
use rvvp.Mmu.Pte.{VmInfo, Csrs, PteMemory}

-- A valid entry: bit 0 is set, and no page is writable without being readable.
abbrev pub IsValid : ℕ → Type 0
IsValid pte = (test_bit pte 0 ≡ true) × ((test_bit pte 1 ≡ true) ⊎ (test_bit pte 2 ≡ false))

-- An entry with neither R nor X points to the next table.
abbrev pub IsPointer : ℕ → Type 0
IsPointer pte = (test_bit pte 1 ≡ false) × (test_bit pte 3 ≡ false)

abbrev pub IsLeaf : ℕ → Type 0
IsLeaf pte = (test_bit pte 1 ≡ true) ⊎ (test_bit pte 3 ≡ true)

-- The access is one that the flags R, W and X grant; mxr makes executable pages readable.
abbrev pub Grants : Csrs → AccessType → ℕ → Type 0
Grants c fetch pte = test_bit pte 3 ≡ true
Grants c load pte = (test_bit pte 1 ≡ true) ⊎ ((c.mxr ≡ true) × (test_bit pte 3 ≡ true))
Grants c store pte = (test_bit pte 1 ≡ true) × (test_bit pte 2 ≡ true)

-- Supervisor code reaches a user page only for data, and only with sum.
abbrev pub SumAllows : Csrs → AccessType → Type 0
SumAllows c fetch = ⊥
SumAllows c load = c.sum ≡ true
SumAllows c store = c.sum ≡ true

abbrev pub Reaches : Csrs → AccessType → Bool → ℕ → Type 0
Reaches c type s_mode pte =
    ((test_bit pte 4 ≡ false) × (s_mode ≡ true))
    ⊎ ((test_bit pte 4 ≡ true) × ((s_mode ≡ false) ⊎ SumAllows c type))

-- A superpage starts at a multiple of its size.
abbrev pub IsAligned : ℕ → ℕ → Type 0
IsAligned ppn ptshift = ppn % 2 ^ ptshift ≡ 0

-- The page number above the level's shift, the virtual page number below it, the page offset.
abbrev pub physical : ℕ → ℕ → ℕ → ℕ
physical vaddr ppn ptshift =
    (ppn / 2 ^ ptshift * 2 ^ ptshift + vaddr / 2 ^ 12 % 2 ^ ptshift) * 2 ^ 12 % 2 ^ 64
    + vaddr % 2 ^ 12

-- The flags that the access needs: A, and D for a store.
abbrev pub HasFlags : AccessType → ℕ → Type 0
HasFlags store pte = (test_bit pte 6 ≡ true) × (test_bit pte 7 ≡ true)
HasFlags _ pte = test_bit pte 6 ≡ true

abbrev pub flags : AccessType → ℕ
flags store = 0xc0
flags _ = 0x40

-- The place of the entry for `vaddr` at level `i` of the table at `base`.
abbrev pub entry_at : VmInfo → ℕ → ℕ → ℕ → ℕ
entry_at vm vaddr i base =
    (base + vaddr / 2 ^ (12 + i * vm.idxbits) % 2 ^ vm.idxbits * vm.ptesize) % 2 ^ 64

abbrev pub entry : {M : Type 0} → PteMemory M → VmInfo → ℕ → M → Result ℕ
entry mem vm a m = if vm.ptesize == 4 then mem.mmu_load_pte32 a m else mem.mmu_load_pte64 a m

module _ {M : Type 0} (mem : PteMemory M) (page_fault_on_ad : Bool) where
  -- The memory behind the walk: untouched if the flags are there, else with the flags stored.
  pub data Accessed (type : AccessType) (pte_paddr pte : ℕ) (m m' : M) : Type 0 where
    had : HasFlags type pte → m' ≡ m → Accessed type pte_paddr pte m m'
    marked :
        ¬ HasFlags type pte
        → page_fault_on_ad ≡ false
        → mem.mmu_store_pte32 pte_paddr (bit_or pte (flags type) % 2 ^ 32) m ≡ ok m'
        → Accessed type pte_paddr pte m m'

  module _ (c : Csrs) (vm : VmInfo) (type : AccessType) (s_mode : Bool) (vaddr : ℕ) (m : M) where
    -- A walk of `n` levels from the table at `base` ends at the address `pa` with memory `m'`.
    pub data Translates (pa : ℕ) (m' : M) : ℕ → ℕ → Type 0 where
      pointer :
          {i base pte : ℕ}
          → entry mem vm (entry_at vm vaddr i base) m ≡ ok pte
          → IsValid pte
          → IsPointer pte
          → Translates pa m' i (pte / 2 ^ 10 * 2 ^ 12 % 2 ^ 64)
          → Translates pa m' (suc i) base
      page :
          {i base pte : ℕ}
          → entry mem vm (entry_at vm vaddr i base) m ≡ ok pte
          → IsValid pte
          → IsLeaf pte
          → Grants c type pte
          → Reaches c type s_mode pte
          → IsAligned (pte / 2 ^ 10) (i * vm.idxbits)
          → Accessed type (entry_at vm vaddr i base) pte m m'
          → pa ≡ physical vaddr (pte / 2 ^ 10) (i * vm.idxbits)
          → Translates pa m' (suc i) base
