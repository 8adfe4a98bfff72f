-- ===== src/Aplic/Enable.antt =====
-- aplic.h: the writes that set and clear enable bits.
use rvvp.Base.{ℕ, ◌/◌, ◌%◌, ◌^◌, ◌||◌, ltb, if◌then◌else◌, bit_and, bit_or}
use rvvp.Base.Bits.{truth, bit_not}
use rvvp.Core.Result.{Result, ok, check, ◌>>◌}
use rvvp.Aplic.Pending.{known_bits}
use rvvp.Aplic.State.{
  Aplic, aplic_m_domain, setie, setienum, clrie, clrienum, set_reg, set_ie, notify, is_unknown,
  source_is_inactive,
}

unfoldable pub post_write_clrie : ℕ → ℕ → Aplic → Result Aplic
unfolding set_reg set_ie
post_write_clrie domain idx s =
    let word = bit_and (s.ie_reg aplic_m_domain idx) (bit_not 32 (s.regs clrie domain idx)) in
    check (ltb idx 32)
    >> ok (
        set_reg setie aplic_m_domain idx word
          (set_ie aplic_m_domain idx word (set_reg clrie domain idx 0 s)))

module _ (number_interrupts : ℕ) where
  unfoldable pub post_write_setie : ℕ → ℕ → Aplic → Result Aplic
  unfolding known_bits set_ie notify
  post_write_setie domain idx s =
      let setie_reg = known_bits number_interrupts idx s 32 0 (s.regs setie domain idx) in
      let word = bit_or (s.ie_reg aplic_m_domain idx) setie_reg in
      let written = set_ie aplic_m_domain idx word s in
      check (ltb idx 32) >> ok (if truth word then notify written else written)

  unfoldable pub post_write_setienum : ℕ → ℕ → Aplic → Aplic
  unfolding set_reg set_ie notify
  post_write_setienum domain idx s =
      let irq_id = s.regs setienum domain idx in
      let zeroed = set_reg setienum domain idx 0 s in
      let word = bit_or (s.ie_reg aplic_m_domain (irq_id / 32)) (2 ^ (irq_id % 32)) in
      if is_unknown number_interrupts irq_id
        || source_is_inactive number_interrupts aplic_m_domain irq_id zeroed
      then zeroed
      else notify (
          set_reg setie aplic_m_domain (irq_id / 32) word
            (set_ie aplic_m_domain (irq_id / 32) word zeroed))

  unfoldable pub post_write_clrienum : ℕ → ℕ → Aplic → Aplic
  unfolding set_reg set_ie
  post_write_clrienum domain idx s =
      let irq_id = s.regs clrienum domain idx in
      let zeroed = set_reg clrienum domain idx 0 s in
      let word = bit_and (s.ie_reg aplic_m_domain (irq_id / 32)) (bit_not 32 (2 ^ (irq_id % 32))) in
      if is_unknown number_interrupts irq_id
        || source_is_inactive number_interrupts aplic_m_domain irq_id zeroed
      then zeroed
      else set_reg setie aplic_m_domain (irq_id / 32) word
          (set_ie aplic_m_domain (irq_id / 32) word zeroed)
