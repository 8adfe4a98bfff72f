-- ===== src/Aplic/Pending.antt =====
-- aplic.h: the writes and the wires that set and clear pending bits.
use rvvp.Base.{
  ℕ, zero, suc, ◌+◌, ◌-◌, ◌*◌, ◌/◌, ◌%◌, ◌^◌, not, ◌&&◌, ◌||◌, ltb, leb, ◌==◌, if◌then◌else◌,
  bit_and, bit_or,
}
use rvvp.Base.Bits.{truth, bit_not}
use rvvp.Core.Result.{Result, ok, check, ◌>>◌}
use rvvp.Aplic.State.{
  Aplic, aplic_m_domain, setip, in_clrip, clripnum, set_reg, set_ip, notify, is_unknown,
  source_is_inactive, drop_pending,
}

unfoldable pub post_write_in_clrip : ℕ → ℕ → Aplic → Result Aplic
unfolding set_ip
post_write_in_clrip domain idx s =
    let word = s.regs in_clrip domain idx in
    check (ltb idx 32)
    >> ok (set_ip aplic_m_domain idx (bit_and (s.ip_reg aplic_m_domain idx) (bit_not 32 word)) s)

module _ (number_interrupts : ℕ) where
  -- The loop of `post_write_setip` and of `post_write_setie`, with `n` bits left from bit `ii` on.
  unfoldable pub known_bits : ℕ → Aplic → ℕ → ℕ → ℕ → ℕ
  known_bits idx s zero ii reg = reg
  known_bits idx s (suc n) ii reg =
      let irq_id = ii + 32 * idx in
      let dropped =
        if not (truth (bit_and reg (2 ^ ii)))
        then reg
        else if irq_id == 0
        then bit_and reg (bit_not 32 (2 ^ 0))
        else if source_is_inactive number_interrupts aplic_m_domain irq_id s
        then bit_and reg (bit_not 32 (2 ^ ii))
        else reg in
      let rest = known_bits idx s n (suc ii) dropped in
      if truth (bit_and reg (2 ^ ii)) && (not (irq_id == 0) && leb number_interrupts irq_id)
      then bit_and reg (2 ^ ii - 1)
      else rest

  unfoldable pub post_write_setip : ℕ → ℕ → Aplic → Result Aplic
  unfolding known_bits set_ip notify
  post_write_setip domain idx s =
      let setip_reg = known_bits idx s 32 0 (s.regs setip domain idx) in
      check (ltb idx 32)
      >> ok (
          if truth setip_reg
          then notify (set_ip aplic_m_domain idx (bit_or (s.ip_reg aplic_m_domain idx) setip_reg) s)
          else s)

  -- A source that gets pending: `ip_reg`, and the word shown in `setip`.
  unfoldable pub make_pending : ℕ → Aplic → Aplic
  unfolding set_reg set_ip notify
  make_pending irq_id s =
      let word = bit_or (s.ip_reg aplic_m_domain (irq_id / 32)) (2 ^ (irq_id % 32)) in
      if is_unknown number_interrupts irq_id
        || source_is_inactive number_interrupts aplic_m_domain irq_id s
      then s
      else notify (
          set_reg setip aplic_m_domain (irq_id / 32) word
            (set_ip aplic_m_domain (irq_id / 32) word s))

  unfoldable pub gateway_trigger_interrupt : ℕ → Aplic → Aplic
  unfolding make_pending
  gateway_trigger_interrupt irq_id s = make_pending irq_id s

  -- `reg` is setipnum, or setipnum_le, whose callback calls that of setipnum.
  unfoldable pub post_write_setipnum : ℕ → ℕ → ℕ → Aplic → Aplic
  unfolding set_reg make_pending
  post_write_setipnum reg domain idx s =
      make_pending (s.regs reg domain idx) (set_reg reg domain idx 0 s)

  unfoldable pub post_write_clripnum : ℕ → ℕ → Aplic → Aplic
  unfolding set_reg drop_pending
  post_write_clripnum domain idx s =
      let clripnum_reg = s.regs clripnum domain idx in
      let zeroed = set_reg clripnum domain idx 0 s in
      if is_unknown number_interrupts clripnum_reg
      then zeroed
      else drop_pending aplic_m_domain clripnum_reg zeroed
