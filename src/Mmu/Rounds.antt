-- ===== src/Mmu/Rounds.antt =====
-- One round of the walk against the architecture: which entries it follows, takes or refuses.
use rvvp.Base.{
  ℕ, ◌*◌, ◌/◌, ◌%◌, ◌^◌, ◌≡◌, ◌≢◌, refl, sym, ◌∙◌, ◌⊎◌, inl, inr, Bool, true, false, ◌==◌,
  Bool-cases, arith, bit_and, bit_or,
}
use rvvp.Base.Bits.{test_bit, truth-bit_and-pow, bit_and_mask, bit_and_shifted}
use rvvp.Core.Result.{Result, ok, AccessType, fetch, load, store}
use rvvp.Mmu.Pte.{VmInfo, Csrs, PteMemory}
use rvvp.Mmu.Walk.{Round, descend, leaf, leaf_denied, update_flags, update_ad, round_at, leaf_paddr}
use rvvp.Mmu.Spec.{
  IsValid, IsPointer, IsLeaf, Grants, Reaches, IsAligned, HasFlags, flags, Accessed, had, marked,
}

module _ (c : Csrs) (s_mode : Bool) (pte ppn ptshift : ℕ) where
  pub allowed_of_leaf_denied :
      (type : AccessType)
      → leaf_denied c type s_mode pte ppn ptshift ≡ false
      → Grants c type pte × Reaches c type s_mode pte × IsAligned ppn ptshift
  unfolding leaf_denied
  allowed_of_leaf_denied fetch h =
      ground (arith, truth-bit_and-pow pte 3, truth-bit_and-pow pte 4, bit_and_mask ppn ptshift)
  allowed_of_leaf_denied load h = ground (
    arith,
    truth-bit_and-pow pte 1,
    truth-bit_and-pow pte 3,
    truth-bit_and-pow pte 4,
    bit_and_mask ppn ptshift,
  )
  allowed_of_leaf_denied store h = ground (
    arith,
    truth-bit_and-pow pte 1,
    truth-bit_and-pow pte 2,
    truth-bit_and-pow pte 4,
    bit_and_mask ppn ptshift,
  )

  pub leaf_denied-eq-false :
      (type : AccessType)
      → Grants c type pte
      → Reaches c type s_mode pte
      → IsAligned ppn ptshift
      → leaf_denied c type s_mode pte ppn ptshift ≡ false
  unfolding leaf_denied
  leaf_denied-eq-false fetch g r a =
      ground (arith, truth-bit_and-pow pte 3, truth-bit_and-pow pte 4, bit_and_mask ppn ptshift)
  leaf_denied-eq-false load g r a = ground (
    arith,
    truth-bit_and-pow pte 1,
    truth-bit_and-pow pte 3,
    truth-bit_and-pow pte 4,
    bit_and_mask ppn ptshift,
  )
  leaf_denied-eq-false store g r a = ground (
    arith,
    truth-bit_and-pow pte 1,
    truth-bit_and-pow pte 2,
    truth-bit_and-pow pte 4,
    bit_and_mask ppn ptshift,
  )

-- `(pte & ad) == ad` says that the flags are there.
flags_there :
    (type : AccessType) (pte : ℕ)
    → (bit_and pte (flags type) == flags type) ≡ true
    → HasFlags type pte
unfolding test_bit
flags_there fetch pte h = ground (arith, bit_and_shifted pte 1 6, bit_and_mask (pte / 64) 1)
flags_there load pte h = ground (arith, bit_and_shifted pte 1 6, bit_and_mask (pte / 64) 1)
flags_there store pte h = ground (arith, bit_and_shifted pte 3 6, bit_and_mask (pte / 64) 2)

flags_set :
    (type : AccessType) (pte : ℕ)
    → HasFlags type pte
    → (bit_and pte (flags type) == flags type) ≡ true
unfolding test_bit
flags_set fetch pte h = ground (arith, bit_and_shifted pte 1 6, bit_and_mask (pte / 64) 1)
flags_set load pte h = ground (arith, bit_and_shifted pte 1 6, bit_and_mask (pte / 64) 1)
flags_set store pte h = ground (arith, bit_and_shifted pte 3 6, bit_and_mask (pte / 64) 2)

module _ {M : Type 0} (mem : PteMemory M) (page_fault_on_ad : Bool) where
  module _ (pte_paddr pte paddr : ℕ) (m : M) where
    abbrev updated : ℕ → Result (Round M)
    updated ad = update_flags mem page_fault_on_ad ad pte_paddr pte paddr m

    update_flags_leaf :
        (ad : ℕ) {pa : ℕ} {m' : M}
        → updated ad ≡ ok (leaf pa m')
        → (pa ≡ paddr)
          × (((bit_and pte ad == ad) ≡ true) × (m' ≡ m)
              ⊎ ((bit_and pte ad == ad) ≡ false)
                × (page_fault_on_ad ≡ false)
                × (mem.mmu_store_pte32 pte_paddr (bit_or pte ad % 2 ^ 32) m ≡ ok m'))
    unfolding update_flags
    update_flags_leaf ad h = ground arith

    update_ad-eq :
        (type : AccessType)
        → update_ad mem page_fault_on_ad type pte_paddr pte paddr m ≡ updated (flags type)
    unfolding update_ad
    update_ad-eq fetch = refl
    update_ad-eq load = refl
    update_ad-eq store = refl

    -- A round that returns an address leaves the memory with the flags of the access.
    pub update_ad-Accessed :
        (type : AccessType) {pa : ℕ} {m' : M}
        → update_ad mem page_fault_on_ad type pte_paddr pte paddr m ≡ ok (leaf pa m')
        → (pa ≡ paddr) × Accessed mem page_fault_on_ad type pte_paddr pte m m'
    update_ad-Accessed type h =
        let (same, cases) = update_flags_leaf (flags type) (sym (update_ad-eq type) ∙ h) in
        elim cases [
          | inl there ↦ (same, had (flags_there type pte there.0) there.1)
          | inr gone ↦ (same, marked (λ f. cc (flags_set type pte f)) gone.1 gone.2)
        ]

    update_flags-ne-descend : (ad base : ℕ) → updated ad ≢ ok (descend base)
    unfolding update_flags
    update_flags-ne-descend ad base h = ground arith

    pub update_ad-ne-descend :
        (type : AccessType) (base : ℕ)
        → update_ad mem page_fault_on_ad type pte_paddr pte paddr m ≢ ok (descend base)
    update_ad-ne-descend type base h =
        update_flags-ne-descend (flags type) base (sym (update_ad-eq type) ∙ h)

    update_flags-had : (ad : ℕ) → (bit_and pte ad == ad) ≡ true → updated ad ≡ ok (leaf paddr m)
    unfolding update_flags
    update_flags-had ad h = rw h

    update_flags-marked :
        (ad : ℕ) {m' : M}
        → (bit_and pte ad == ad) ≡ false
        → page_fault_on_ad ≡ false
        → mem.mmu_store_pte32 pte_paddr (bit_or pte ad % 2 ^ 32) m ≡ ok m'
        → updated ad ≡ ok (leaf paddr m')
    unfolding update_flags
    update_flags-marked ad h off s = rw (h, off, s)

    pub Accessed-update_ad :
        (type : AccessType) {m' : M}
        → Accessed mem page_fault_on_ad type pte_paddr pte m m'
        → update_ad mem page_fault_on_ad type pte_paddr pte paddr m ≡ ok (leaf paddr m')
    Accessed-update_ad type (had f e) =
        update_ad-eq type ∙ update_flags-had (flags type) (flags_set type pte f) ∙ cc e
    Accessed-update_ad type (marked f off s) =
        elim (Bool-cases (bit_and pte (flags type) == flags type)) [
          | inl there ↦ absurd (f (flags_there type pte there))
          | inr gone ↦ update_ad-eq type ∙ update_flags-marked (flags type) gone off s
        ]

  module _ (c : Csrs) (vm : VmInfo) (type : AccessType) (s_mode : Bool) (vaddr i pte_paddr pte : ℕ)
      (m : M) where
    abbrev outcome : Result (Round M)
    outcome = round_at mem page_fault_on_ad c vm type s_mode vaddr i pte_paddr pte m

    abbrev ppn : ℕ
    ppn = pte / 2 ^ 10

    abbrev taken : ℕ → Result (Round M)
    taken paddr = update_ad mem page_fault_on_ad type pte_paddr pte paddr m

    -- A round goes on to the next table exactly at a valid pointer.
    pub round_at-descend :
        {base : ℕ}
        → outcome ≡ ok (descend base)
        → IsValid pte × IsPointer pte × (base ≡ ppn * 2 ^ 12 % 2 ^ 64)
    unfolding round_at
    round_at-descend {base} h = ground (
      arith,
      update_ad-ne-descend pte_paddr pte (leaf_paddr vaddr ppn (i * vm.idxbits)) m type base,
      truth-bit_and-pow pte 0,
      truth-bit_and-pow pte 1,
      truth-bit_and-pow pte 2,
      truth-bit_and-pow pte 3,
    )

    pub round_at-leaf :
        {pa : ℕ} {m' : M}
        → outcome ≡ ok (leaf pa m')
        → IsValid pte
          × IsLeaf pte
          × (leaf_denied c type s_mode pte ppn (i * vm.idxbits) ≡ false)
          × (taken (leaf_paddr vaddr ppn (i * vm.idxbits)) ≡ ok (leaf pa m'))
    unfolding round_at
    round_at-leaf h = ground (
      arith,
      truth-bit_and-pow pte 0,
      truth-bit_and-pow pte 1,
      truth-bit_and-pow pte 2,
      truth-bit_and-pow pte 3,
    )

    pub round_at_of_pointer :
        IsValid pte → IsPointer pte → outcome ≡ ok (descend (ppn * 2 ^ 12 % 2 ^ 64))
    unfolding round_at
    round_at_of_pointer v p = ground (
      arith,
      truth-bit_and-pow pte 0,
      truth-bit_and-pow pte 1,
      truth-bit_and-pow pte 2,
      truth-bit_and-pow pte 3,
    )

    pub round_at_of_leaf :
        IsValid pte
        → IsLeaf pte
        → leaf_denied c type s_mode pte ppn (i * vm.idxbits) ≡ false
        → outcome ≡ taken (leaf_paddr vaddr ppn (i * vm.idxbits))
    unfolding round_at
    round_at_of_leaf v l a = ground (
      arith,
      truth-bit_and-pow pte 0,
      truth-bit_and-pow pte 1,
      truth-bit_and-pow pte 2,
      truth-bit_and-pow pte 3,
    )
