-- ===== src/Mmu/Reuse.antt =====
-- What a hit of the translation buffer returns, compared with the walk that filled it.
use rvvp.Base.{
  ℕ, ◌+◌, ◌*◌, ◌/◌, ◌%◌, ◌^◌, ◌-◌, ◌≤◌, ◌<◌, ◌≡◌, ◌≢◌, refl, sym, ap, ◌∙◌, ◌⊎◌, inl, inr, Bool,
  true, ◌==◌, arith, bit_and, bit_or, ◌||◌,
}
use rvvp.Base.Bits.{bit_not, bit_and_mask, bit_and_high, bit_and-mod, bit_or_fields}
use rvvp.Core.Privilege.{user_mode, supervisor_mode, machine_mode}
use rvvp.Core.Result.{Result, ok, AccessType, fetch, load, store, check}
use rvvp.Mmu.Pte.{Csrs, PteMemory, satp_mode_bare, pgmask}
use rvvp.Mmu.Walk.{walk}
use rvvp.Mmu.Tlb.{
  TlbEntry, Mmu, Tlb, type_eq, update_tlb, flush_tlb, effective_mode, tlb_ppn, lookup_or_walk,
  translate_virtual_to_physical_addr,
}

tlb_ppn-eq : (paddr : ℕ) → tlb_ppn paddr ≡ paddr % 2 ^ 32 / 2 ^ 12 * 2 ^ 12
unfolding tlb_ppn
tlb_ppn-eq paddr =
    bit_and-mod 32 paddr (bit_not 32 pgmask) (omega arith)
    ∙ bit_and_high 32 12 (paddr % 2 ^ 32) (omega arith) (omega arith)

pub type_eq_refl : (type : AccessType) → type_eq type type ≡ true
type_eq_refl fetch = refl
type_eq_refl load = refl
type_eq_refl store = refl

-- An entry is unused, or holds the start of a page below 4 GiB.
abbrev pub IsPageEntry : TlbEntry → Type 0
IsPageEntry x = (x.vpn ≡ 2 ^ 64 - 1) ⊎ ((x.ppn % 2 ^ 12 ≡ 0) × (x.ppn < 2 ^ 32))

abbrev pub IsPageTlb : {M : Type 0} → Mmu M → Type 0
IsPageTlb s = (mode : ℕ) (type : AccessType) (idx : ℕ) → IsPageEntry (s.tlb mode type idx)

pub flush_tlb-IsPageTlb : {M : Type 0} (s : Mmu M) → IsPageTlb (flush_tlb s)
unfolding flush_tlb
flush_tlb-IsPageTlb s mode type idx = inl refl

module _ {M : Type 0} (mem : PteMemory M) (page_fault_on_ad : Bool) (c : Csrs) where
  abbrev lookup : ℕ → AccessType → ℕ → Mmu M → Result (ℕ × Mmu M)
  lookup = lookup_or_walk mem page_fault_on_ad c

  -- A lookup that returns was a hit, or walked and recorded the page.
  lookup-cases :
      (vaddr : ℕ) (type : AccessType) (mode : ℕ) (s : Mmu M) {pa : ℕ} {s' : Mmu M}
      → lookup vaddr type mode s ≡ ok (pa, s')
      → let x = s.tlb mode type (vaddr / 2 ^ 12 % 256) in
        (check (mode == user_mode || mode == supervisor_mode) ≡ ok tt)
        × (((x.vpn ≡ vaddr / 2 ^ 12) × (pa ≡ bit_or x.ppn (bit_and vaddr pgmask)) × (s' ≡ s))
            ⊎ ((walk mem page_fault_on_ad c vaddr type mode s.mem ≡ ok (pa, s'.mem))
                × (s'.tlb
                    ≡ update_tlb s.tlb mode type
                        (vaddr / 2 ^ 12 % 256)
                        (record { ppn = tlb_ppn pa; vpn = vaddr / 2 ^ 12 }))))
  unfolding lookup_or_walk
  lookup-cases vaddr type mode s h = ground arith

  lookup_hit :
      (vaddr : ℕ) (type : AccessType) (mode : ℕ) (s : Mmu M)
      → check (mode == user_mode || mode == supervisor_mode) ≡ ok tt
      → (s.tlb mode type (vaddr / 2 ^ 12 % 256)).vpn ≡ vaddr / 2 ^ 12
      → lookup vaddr type mode s
        ≡ ok (bit_or (s.tlb mode type (vaddr / 2 ^ 12 % 256)).ppn (bit_and vaddr pgmask), s)
  unfolding lookup_or_walk
  lookup_hit vaddr type mode s allowed hit = ground arith

  -- The entry that a lookup recorded is found again.
  recorded :
      (t : Tlb) (mode : ℕ) (type : AccessType) (idx : ℕ) (x : TlbEntry)
      → update_tlb t mode type idx x mode type idx ≡ x
  recorded t mode type idx x = ground (arith, type_eq_refl type)

  -- If every entry of the buffer is unused or holds the start of a page below 4 GiB, then so does
  -- every entry behind a lookup that returns.
  pub lookup_or_walk-IsPageTlb :
      (vaddr : ℕ) (type : AccessType) (mode : ℕ) (s : Mmu M) {pa : ℕ} {s' : Mmu M}
      → IsPageTlb s
      → lookup vaddr type mode s ≡ ok (pa, s')
      → IsPageTlb s'
  lookup_or_walk-IsPageTlb vaddr type mode s {pa} {s'} inv h mode' type' idx' =
      elim (lookup-cases vaddr type mode s h).1 [
        | inl hit ↦ rw hit.2 (inv mode' type' idx')
        | inr walked ↦ rw walked.1 (ground (arith, inv mode' type' idx', tlb_ppn-eq pa))
      ]

  -- A hit gives the page of the entry and the offset of the address.
  hit_paddr :
      (x : TlbEntry) (vaddr : ℕ)
      → x.ppn % 2 ^ 12 ≡ 0
      → bit_or x.ppn (bit_and vaddr pgmask) ≡ x.ppn + vaddr % 2 ^ 12
  hit_paddr x vaddr aligned =
      ap (bit_or x.ppn) (bit_and_mask vaddr 12)
      ∙ ap (λ (t : ℕ). bit_or t (vaddr % 2 ^ 12)) {y = x.ppn / 2 ^ 12 * 2 ^ 12} (omega arith)
      ∙ bit_or_fields 12 (x.ppn / 2 ^ 12) (vaddr % 2 ^ 12) (omega arith)
      ∙ omega arith

  hit_page :
      (vaddr : ℕ) (type : AccessType) (mode page : ℕ) (s : Mmu M)
      → check (mode == user_mode || mode == supervisor_mode) ≡ ok tt
      → (s.tlb mode type (vaddr / 2 ^ 12 % 256)).vpn ≡ vaddr / 2 ^ 12
      → (s.tlb mode type (vaddr / 2 ^ 12 % 256)).ppn ≡ page * 2 ^ 12
      → lookup vaddr type mode s ≡ ok (page * 2 ^ 12 + vaddr % 2 ^ 12, s)
  hit_page vaddr type mode page s allowed hit start =
      let x = s.tlb mode type (vaddr / 2 ^ 12 % 256) in
      lookup_hit vaddr type mode s allowed hit
      ∙ ap (λ (p : ℕ). ok (p, s)) (hit_paddr x vaddr (omega arith) ∙ omega arith)

  -- The entry that a lookup leaves at the page of its address.
  lookup-entry :
      (vaddr : ℕ) (type : AccessType) (mode : ℕ) (s : Mmu M) {pa : ℕ} {s' : Mmu M}
      → IsPageTlb s
      → vaddr < 2 ^ 64
      → lookup vaddr type mode s ≡ ok (pa, s')
      → let x = s'.tlb mode type (vaddr / 2 ^ 12 % 256) in
        (check (mode == user_mode || mode == supervisor_mode) ≡ ok tt)
        × (x.vpn ≡ vaddr / 2 ^ 12)
        × (x.ppn ≡ pa % 2 ^ 32 / 2 ^ 12 * 2 ^ 12)
  lookup-entry vaddr type mode s {pa} {s'} inv word h =
      let (allowed, cases) = lookup-cases vaddr type mode s h in
      let idx = vaddr / 2 ^ 12 % 256 in
      let x : TlbEntry = record { ppn = tlb_ppn pa; vpn = vaddr / 2 ^ 12 } in
      elim cases [
        | inl hit ↦
            let y = s.tlb mode type idx in
            let aligned : (y.ppn % 2 ^ 12 ≡ 0) × (y.ppn < 2 ^ 32) = elim (inv mode type idx) [
              | inl unused ↦ absurd (omega arith)
              | inr used ↦ used
            ] in
            rw hit.2 (allowed, hit.0, omega (arith, hit_paddr y vaddr aligned.0))
        | inr walked ↦ rw (walked.1, recorded s.tlb mode type idx x) (allowed, refl, tlb_ppn-eq pa)
      ]

  -- After a lookup that returned an address below 4 GiB, a lookup in the same page hits, changes
  -- nothing and returns the same page at its own offset.
  pub lookup_again :
      (vaddr vaddr' : ℕ) (type : AccessType) (mode : ℕ) (s : Mmu M) {pa : ℕ} {s' : Mmu M}
      → IsPageTlb s
      → vaddr < 2 ^ 64
      → vaddr / 2 ^ 12 ≡ vaddr' / 2 ^ 12
      → lookup vaddr type mode s ≡ ok (pa, s')
      → lookup vaddr' type mode s' ≡ ok (pa % 2 ^ 32 / 2 ^ 12 * 2 ^ 12 + vaddr' % 2 ^ 12, s')
  lookup_again vaddr vaddr' type mode s {pa} {s'} inv word same h =
      let (allowed, vpn, ppn) = lookup-entry vaddr type mode s inv word h in
      hit_page vaddr' type mode (pa % 2 ^ 32 / 2 ^ 12) s' allowed (rw (← same) vpn ∙ same)
        (rw (← same) ppn)

  module _ (paged : c.satp_mode ≢ satp_mode_bare) where
    abbrev translate : ℕ → AccessType → Mmu M → Result (ℕ × Mmu M)
    translate = translate_virtual_to_physical_addr mem page_fault_on_ad c

    translate-lookup :
        (vaddr : ℕ) (type : AccessType) (s : Mmu M)
        → effective_mode c type ≢ machine_mode
        → translate vaddr type s ≡ lookup vaddr type (effective_mode c type) s
    unfolding translate_virtual_to_physical_addr
    translate-lookup vaddr type s m = ground arith

    -- With paging on and outside machine mode, in a buffer whose entries are unused or start a page
    -- below 4 GiB: once an access at a 64-bit address returned a physical address below 4 GiB, the
    -- next access with the same registers, if it is of the same kind and in the same page, returns
    -- that page at its own offset, and leaves the memory and the buffer as they are.
    pub translate_again :
        (vaddr vaddr' : ℕ) (type : AccessType) (s : Mmu M) {pa : ℕ} {s' : Mmu M}
        → effective_mode c type ≢ machine_mode
        → IsPageTlb s
        → vaddr < 2 ^ 64
        → vaddr / 2 ^ 12 ≡ vaddr' / 2 ^ 12
        → translate vaddr type s ≡ ok (pa, s')
        → pa < 2 ^ 32
        → translate vaddr' type s' ≡ ok (pa / 2 ^ 12 * 2 ^ 12 + vaddr' % 2 ^ 12, s')
    translate_again vaddr vaddr' type s {pa} {s'} user inv word same h low =
        translate-lookup vaddr' type s' user
        ∙ lookup_again vaddr vaddr' type (effective_mode c type) s inv word same
            (sym (translate-lookup vaddr type s user) ∙ h)
        ∙ ap (λ (p : ℕ). ok (p, s')) (omega arith)

    -- With paging on and outside machine mode, in a buffer whose entries are unused or start a page
    -- below 4 GiB: an access at a 64-bit address that returned a physical address from 4 GiB on,
    -- repeated at once with the same registers, is answered with another address, which keeps only
    -- the low 32 bits of the first one's page, and leaves the memory and the buffer as they are.
    pub translate_again_truncated :
        (vaddr : ℕ) (type : AccessType) (s : Mmu M) {pa : ℕ} {s' : Mmu M}
        → effective_mode c type ≢ machine_mode
        → IsPageTlb s
        → vaddr < 2 ^ 64
        → translate vaddr type s ≡ ok (pa, s')
        → 2 ^ 32 ≤ pa
        → (translate vaddr type s' ≡ ok (pa % 2 ^ 32 / 2 ^ 12 * 2 ^ 12 + vaddr % 2 ^ 12, s'))
          × (pa % 2 ^ 32 / 2 ^ 12 * 2 ^ 12 + vaddr % 2 ^ 12 ≢ pa)
    translate_again_truncated vaddr type s {pa} {s'} user inv word h high =
        let first = sym (translate-lookup vaddr type s user) ∙ h in
        (
          translate-lookup vaddr type s' user
              ∙ lookup_again vaddr vaddr type (effective_mode c type) s inv word refl first,
          λ same. omega arith,
        )
