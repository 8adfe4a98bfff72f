-- ===== src/Mmu/Paddr.antt =====
-- The address that a walk returns: the masks of mmu.h as division and remainder.
use native.Mathlib.Nat.{mod-lt}
use rvvp.Base.{ℕ, ◌+◌, ◌-◌, ◌*◌, ◌/◌, ◌%◌, ◌^◌, ◌≤◌, ◌<◌, ◌≡◌, ap, ◌∙◌, arith, bit_and, bit_or}
use rvvp.Base.Bits.{bit_not, bit_and_mask, bit_and_high, bit_or_fields, two_pow_pos}
use rvvp.Mmu.Pte.{pgmask}
use rvvp.Mmu.Walk.{leaf_paddr}
use rvvp.Mmu.Spec.{physical}

module _ (vaddr ppn ptshift : ℕ) (word : ppn < 2 ^ 64) (small : ptshift ≤ 64) where
  abbrev page : ℕ
  page = ppn / 2 ^ ptshift * 2 ^ ptshift + vaddr / 2 ^ 12 % 2 ^ ptshift

  fields :
      bit_or
        (bit_and ppn (bit_not 64 (2 ^ ptshift - 1)))
        (bit_and (vaddr / 2 ^ 12) (2 ^ ptshift - 1))
      ≡ page
  fields =
      ap (λ (t : ℕ). bit_or t (bit_and (vaddr / 2 ^ 12) (2 ^ ptshift - 1)))
        (bit_and_high 64 ptshift ppn word small)
      ∙ ap (bit_or (ppn / 2 ^ ptshift * 2 ^ ptshift)) (bit_and_mask (vaddr / 2 ^ 12) ptshift)
      ∙ bit_or_fields ptshift (ppn / 2 ^ ptshift) (vaddr / 2 ^ 12 % 2 ^ ptshift)
          (mod-lt _ (two_pow_pos ptshift))

  -- The masks and shifts of the code give the architecture's address.
  pub leaf_paddr-eq-physical : leaf_paddr vaddr ppn ptshift ≡ physical vaddr ppn ptshift
  unfolding leaf_paddr
  leaf_paddr-eq-physical =
      ap (λ (t : ℕ). bit_or (t * 2 ^ 12 % 2 ^ 64) (bit_and vaddr pgmask)) fields
      ∙ ap (bit_or (page * 2 ^ 12 % 2 ^ 64)) (bit_and_mask vaddr 12)
      ∙ ap (λ (t : ℕ). bit_or t (vaddr % 2 ^ 12)) {y = page % 2 ^ 52 * 2 ^ 12} (omega arith)
      ∙ bit_or_fields 12 (page % 2 ^ 52) (vaddr % 2 ^ 12) (omega arith)
      ∙ omega arith
