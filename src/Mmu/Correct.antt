-- ===== src/Mmu/Correct.antt =====
-- The walk of mmu.h is the architecture's translation.
use rvvp.Base.{
  ℕ, zero, suc, ◌+◌, ◌*◌, ◌/◌, ◌%◌, ◌^◌, ◌≤◌, ◌<◌, ◌≡◌, sym, ap, ◌∙◌, ◌↔◌, Bool, ◌==◌, Bool-cases,
  inl, inr, arith, ◌⊎◌,
}
use rvvp.Base.Bits.{bit_and_mask}
use rvvp.Core.Result.{Result, ok, AccessType, ◌>>=◌, >>=-eq-ok, raise_trap}
use rvvp.Mmu.Pte.{VmInfo, Csrs, PteMemory, IsWordMemory}
use rvvp.Mmu.Walk.{
  Round, descend, page_fault, leaf, leaf_paddr, page_fault_cause, round_at, pte_paddr_of, load_pte,
  walk_levels,
}
use rvvp.Mmu.Spec.{entry_at, entry, Translates, pointer, page}
use rvvp.Mmu.Paddr.{leaf_paddr-eq-physical}
use rvvp.Mmu.Rounds.{
  allowed_of_leaf_denied, leaf_denied-eq-false, update_ad-Accessed, Accessed-update_ad,
  round_at-descend, round_at-leaf, round_at_of_pointer, round_at_of_leaf,
}

pte_paddr_of-eq :
    (vm : VmInfo) (vaddr i base : ℕ) → pte_paddr_of vm vaddr i base ≡ entry_at vm vaddr i base
unfolding pte_paddr_of
pte_paddr_of-eq vm vaddr i base =
    ap (λ (t : ℕ). (base + t * vm.ptesize) % 2 ^ 64)
      (bit_and_mask (vaddr / 2 ^ (12 + i * vm.idxbits)) vm.idxbits)

module _ {M : Type 0} (mem : PteMemory M) (words : IsWordMemory mem) (page_fault_on_ad : Bool)
    (c : Csrs) (vm : VmInfo) (sized : (vm.ptesize ≡ 4) ⊎ (vm.ptesize ≡ 8)) (type : AccessType)
    (s_mode : Bool) (vaddr : ℕ) where
  -- Behind its assertion the load is that of the entry.
  load_pte-eq : (a : ℕ) (m : M) → load_pte mem vm a m ≡ entry mem vm a m
  unfolding load_pte
  load_pte-eq a m = ground arith

  abbrev steps : ℕ → ℕ → M → Result (ℕ × M)
  steps = walk_levels mem page_fault_on_ad c vm type s_mode vaddr

  abbrev Derives : M → ℕ → M → ℕ → ℕ → Type 0
  Derives m = Translates mem page_fault_on_ad c vm type s_mode vaddr m

  entry_word : (a : ℕ) (m : M) {pte : ℕ} → entry mem vm a m ≡ ok pte → pte / 2 ^ 10 < 2 ^ 64
  entry_word a m {pte} h = elim (Bool-cases (vm.ptesize == 4)) [
    | inl four ↦ omega (arith, words.word32 a m pte (rw four at h))
    | inr eight ↦ omega (arith, words.word64 a m pte (rw eight at h))
  ]

  abbrev returned : ℕ → M → Round M → Result (ℕ × M)
  returned i m r = elim r [
    | descend base' ↦ steps i base' m
    | page_fault ↦ raise_trap (page_fault_cause type) vaddr
    | leaf paddr m' ↦ ok (paddr, m')
  ]

  -- One step of the loop, with its entry and its round computed.
  steps_of_round :
      (i base : ℕ) (m : M) {pte : ℕ} (r : Round M)
      → entry mem vm (entry_at vm vaddr i base) m ≡ ok pte
      → round_at mem page_fault_on_ad c vm type s_mode vaddr i (entry_at vm vaddr i base) pte m
        ≡ ok r
      → steps (suc i) base m ≡ returned i m r
  unfolding walk_levels
  steps_of_round i base m r e h =
      rw (pte_paddr_of-eq vm vaddr i base, load_pte-eq (entry_at vm vaddr i base) m, e, h)

  -- Every derivation is a run of the loop.
  pub walk_levels_complete :
      {m m' : M} {pa n base : ℕ}
      → n * vm.idxbits ≤ 64
      → Derives m pa m' n base
      → steps n base m ≡ ok (pa, m')
  walk_levels_complete {m} small (pointer {i} {base} {pte} e v p rest) =
      steps_of_round i base m _ e (
        round_at_of_pointer mem page_fault_on_ad c vm type s_mode vaddr i (entry_at vm vaddr i base)
          pte m v p)
      ∙ walk_levels_complete (grind arith) rest
  walk_levels_complete {m} {m'} small (page {i} {base} {pte} e v l g r a acc same) =
      steps_of_round i base m (leaf paddr m') e (
        round_at_of_leaf mem page_fault_on_ad c vm type s_mode vaddr i at pte m v l
          (leaf_denied-eq-false c s_mode pte ppn shift type g r a)
        ∙ Accessed-update_ad mem page_fault_on_ad at pte paddr m type acc)
      ∙ ap (λ (p : ℕ). ok (p, m'))
          (leaf_paddr-eq-physical vaddr ppn shift (entry_word at m e) (grind arith) ∙ sym same)
    where
      at : ℕ
      at = entry_at vm vaddr i base

      ppn : ℕ
      ppn = pte / 2 ^ 10

      shift : ℕ
      shift = i * vm.idxbits

      paddr : ℕ
      paddr = leaf_paddr vaddr ppn shift

  sound_round :
      {m m' : M} {pa i base pte : ℕ}
      → i * vm.idxbits ≤ 64
      → entry mem vm (entry_at vm vaddr i base) m ≡ ok pte
      → (r : Round M)
      → round_at mem page_fault_on_ad c vm type s_mode vaddr i (entry_at vm vaddr i base) pte m
        ≡ ok r
      → ((base' : ℕ) → steps i base' m ≡ ok (pa, m') → Derives m pa m' i base')
      → returned i m r ≡ ok (pa, m')
      → Derives m pa m' (suc i) base
  sound_round {m} {i = i} {base = base} {pte = pte} small e (descend base') h ih done =
      let (v, p, next) = round_at-descend mem page_fault_on_ad c vm type s_mode vaddr i _ pte m h in
      pointer e v p (ih _ (rw (← next) done))
  sound_round small e page_fault h ih done = cc
  sound_round {m} {m'} {pa} {i = i} {base = base} {pte = pte} small e (leaf paddr m'') h ih done =
      let (v, l, allowed, taken) =
        round_at-leaf mem page_fault_on_ad c vm type s_mode vaddr i _ pte m h in
      let (g, r, a) =
        allowed_of_leaf_denied c s_mode pte (pte / 2 ^ 10) (i * vm.idxbits) type allowed in
      let (same, acc) = update_ad-Accessed mem page_fault_on_ad _ pte _ m type taken in
      let kept : m'' ≡ m' = cc done in
      let there : paddr ≡ pa = cc done in
      page e v l g r a (rw kept at acc) (
        sym there ∙ same ∙ leaf_paddr-eq-physical vaddr _ (i * vm.idxbits) (entry_word _ m e) small)

  -- Every run of the loop that returns is a derivation.
  pub walk_levels_sound :
      (n base : ℕ) {m m' : M} {pa : ℕ}
      → n * vm.idxbits ≤ 64
      → steps n base m ≡ ok (pa, m')
      → Derives m pa m' n base
  unfolding walk_levels
  walk_levels_sound zero base small h = cc
  walk_levels_sound (suc i) base {m} small h =
      let le : i * vm.idxbits ≤ 64 = grind arith in
      let (pte, e, h') = >>=-eq-ok (load_pte mem vm place m) (λ pte. run pte >>= returned i m) h in
      let (r, hr, done) = >>=-eq-ok (run pte) (returned i m) h' in
      sound_round {pte = pte} le
        (rw (← pte_paddr_of-eq vm vaddr i base) (sym (load_pte-eq place m) ∙ e)) r
        (rw (← pte_paddr_of-eq vm vaddr i base) hr) (λ base'. walk_levels_sound i base' le) done
    where
      place : ℕ
      place = pte_paddr_of vm vaddr i base

      run : ℕ → Result (Round M)
      run pte = round_at mem page_fault_on_ad c vm type s_mode vaddr i place pte m

  -- The loop returns an address and a memory exactly when the architecture derives them.
  pub walk_levels-iff-Translates :
      (n base : ℕ) (m m' : M) (pa : ℕ)
      → n * vm.idxbits ≤ 64
      → (steps n base m ≡ ok (pa, m')) ↔ Derives m pa m' n base
  walk_levels-iff-Translates n base m m' pa small =
      (walk_levels_sound n base small, walk_levels_complete small)
