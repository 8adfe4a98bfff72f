-- ===== src/Mmu/Whole.antt =====
-- `GenericMMU::walk` as a whole: the mode of satp, the check of the high bits, the loop and its trap.
use rvvp.Base.{
  ℕ, ◌+◌, ◌-◌, ◌*◌, ◌/◌, ◌%◌, ◌^◌, ◌≤◌, ◌≡◌, ◌≢◌, ◌∙◌, ◌↔◌, ◌⊎◌, Bool, true, ◌==◌, Bool-cases, inl,
  inr, arith, if◌then◌else◌, refl,
}
use rvvp.Base.Bits.{bit_and_mask}
use rvvp.Core.Privilege.{machine_mode, supervisor_mode}
use rvvp.Core.Result.{Result, ok, AccessType, raise_trap}
use rvvp.Mmu.Pte.{VmInfo, Csrs, PteMemory, IsWordMemory, decode_vm_info, check_vaddr_extension}
use rvvp.Mmu.Walk.{walk, walk_levels, page_fault_cause}
use rvvp.Mmu.Spec.{Translates}
use rvvp.Mmu.Correct.{walk_levels-iff-Translates}

-- The bits from the highest translated one up to the register width are all 0 or all 1.
abbrev pub IsCanonical : Csrs → VmInfo → ℕ → Type 0
IsCanonical c vm vaddr =
    let highbit = vm.idxbits * vm.levels + 12 - 1 in
    let bits = vaddr / 2 ^ highbit % 2 ^ (c.xlen - highbit) in
    (bits ≡ 0) ⊎ (bits ≡ 2 ^ (c.xlen - highbit) - 1)

check_vaddr_extension_iff :
    (c : Csrs) (vaddr : ℕ) (vm : VmInfo)
    → (check_vaddr_extension c vaddr vm ≡ true) ↔ IsCanonical c vm vaddr
unfolding check_vaddr_extension
check_vaddr_extension_iff c vaddr vm =
    let highbit = vm.idxbits * vm.levels + 12 - 1 in
    (
      (λ h. ground (arith, bit_and_mask (vaddr / 2 ^ highbit) (c.xlen - highbit))),
      (λ h. ground (arith, bit_and_mask (vaddr / 2 ^ highbit) (c.xlen - highbit))),
    )

-- The tables have six levels of nine bits at most.
decode_vm_info_bound :
    (c : Csrs) {vm : VmInfo} → decode_vm_info c ≡ ok vm → vm.levels * vm.idxbits ≤ 64
unfolding decode_vm_info
decode_vm_info_bound c h = ground arith

-- Their entries have 4 or 8 bytes.
decode_vm_info_ptesize :
    (c : Csrs) {vm : VmInfo} → decode_vm_info c ≡ ok vm → (vm.ptesize ≡ 4) ⊎ (vm.ptesize ≡ 8)
unfolding decode_vm_info
decode_vm_info_ptesize c h = ground arith

-- What a walk from `vaddr` to `pa` is, with memory `m` before it and `m'` behind it.
abbrev pub Walked :
    {M : Type 0} → PteMemory M → Bool → Csrs → ℕ → AccessType → ℕ → M → ℕ → M → Type 0
Walked mem page_fault_on_ad c vaddr type mode m pa m' =
    (mode ≢ machine_mode)
    × (vm : VmInfo) × (decode_vm_info c ≡ ok vm)
    × IsCanonical c vm vaddr
    × Translates mem page_fault_on_ad c vm type (mode == supervisor_mode) vaddr m pa m' vm.levels
        vm.ptbase

module _ {M : Type 0} (mem : PteMemory M) (words : IsWordMemory mem) (page_fault_on_ad : Bool)
    (c : Csrs) where
  module _ (vaddr : ℕ) (type : AccessType) (mode : ℕ) (m : M) where
    abbrev walked : Result (ℕ × M)
    walked = walk mem page_fault_on_ad c vaddr type mode m

    abbrev levels : VmInfo → ℕ → Result (ℕ × M)
    levels vm n =
        walk_levels mem page_fault_on_ad c vm type (mode == supervisor_mode) vaddr n vm.ptbase m

    walk-levels :
        {vm : VmInfo}
        → mode ≢ machine_mode
        → decode_vm_info c ≡ ok vm
        → walked ≡ levels vm (if check_vaddr_extension c vaddr vm then vm.levels else 0)
    unfolding walk
    walk-levels user e = rw e (ground arith)

    walk-ok :
        {pa : ℕ} {m' : M}
        → walked ≡ ok (pa, m')
        → (mode ≢ machine_mode)
          × (vm : VmInfo) × (decode_vm_info c ≡ ok vm)
          × (levels vm (if check_vaddr_extension c vaddr vm then vm.levels else 0) ≡ ok (pa, m'))
    unfolding walk
    walk-ok h = ground arith

    zero-levels : (vm : VmInfo) → levels vm 0 ≡ raise_trap (page_fault_cause type) vaddr
    unfolding walk_levels
    zero-levels vm = refl

    -- Over a memory that loads 64-bit entries, `walk` returns an address and a memory exactly when
    -- the access is not in machine mode, the mode of satp is one that translates, the address is
    -- canonical for it, and the page tables derive that address and that memory.
    pub walk-iff-Translates :
        (m' : M) (pa : ℕ)
        → (walked ≡ ok (pa, m')) ↔ Walked mem page_fault_on_ad c vaddr type mode m pa m'
    walk-iff-Translates m' pa = (there, back)
      where
        there : walked ≡ ok (pa, m') → Walked mem page_fault_on_ad c vaddr type mode m pa m'
        there h =
            let (user, vm, e, run) = walk-ok h in
            elim (Bool-cases (check_vaddr_extension c vaddr vm)) [
              | inl canonical ↦ (
                user,
                vm,
                e,
                (check_vaddr_extension_iff c vaddr vm).0 canonical,
                (walk_levels-iff-Translates mem words page_fault_on_ad c vm
                      (decode_vm_info_ptesize c e) type (mode == supervisor_mode) vaddr vm.levels
                      vm.ptbase m m' pa (decode_vm_info_bound c e)).0
                    (rw canonical at run),
              )
              | inr wild ↦ cc (zero-levels vm)
            ]

        back : Walked mem page_fault_on_ad c vaddr type mode m pa m' → walked ≡ ok (pa, m')
        back (user, vm, e, canonical, derives) =
            walk-levels user e
            ∙ rw ((check_vaddr_extension_iff c vaddr vm).1 canonical) (
                (walk_levels-iff-Translates mem words page_fault_on_ad c vm
                    (decode_vm_info_ptesize c e) type (mode == supervisor_mode) vaddr vm.levels
                    vm.ptbase m m' pa (decode_vm_info_bound c e)).1
                  derives)
