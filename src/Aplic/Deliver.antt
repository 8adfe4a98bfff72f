-- ===== src/Aplic/Deliver.antt =====
-- aplic.h: the thread that sends the pending interrupts as messages.
use rvvp.Base.{false, ℕ, zero, suc, ◌-◌, not, ◌&&◌, ◌||◌, ltb, ◌==◌, if◌then◌else◌}
use rvvp.Core.Result.{Result, ok, ◌>>=◌}
use rvvp.Aplic.State.{
  Aplic, edge0, edge1, is_pending_interrupt, aplic_m_domain, domaincfg, sourcecfg, target, field,
  is_unknown, source_is_inactive, drop_pending,
}
use rvvp.Aplic.Address.{get_m_target_address}
use rvvp.Aplic.Write.{send}

module _ (number_interrupts : ℕ) where
  -- The loop of `hart_get_next_pending_interrupt`, with `n` sources left from `irq_id` on.
  unfoldable pub next_pending : ℕ → Aplic → ℕ → ℕ → ℕ
  next_pending domain s zero irq_id = irq_id
  next_pending domain s (suc n) irq_id =
      let rest = next_pending domain s n (suc irq_id) in
      if not (source_is_inactive number_interrupts domain irq_id s)
        && is_pending_interrupt number_interrupts domain irq_id s
      then irq_id
      else rest

  unfoldable pub hart_get_next_pending_interrupt : ℕ → Aplic → ℕ
  unfolding next_pending
  hart_get_next_pending_interrupt domain s =
      let irq_id = next_pending domain s (number_interrupts - 1) 1 in
      if field (s.regs domaincfg domain 0) 2 0x1 == 0
      then 0
      else if field (s.regs domaincfg domain 0) 8 0x1 == 0
      then 0
      else if irq_id == number_interrupts
      then 0
      else irq_id

  unfoldable pub msi_clr_pending : ℕ → ℕ → Aplic → Aplic
  unfolding drop_pending
  msi_clr_pending domain irq_id s =
      let sm = field (s.regs sourcecfg domain (irq_id - 1)) 0 0x7 in
      if is_unknown number_interrupts irq_id
      then s
      else if not (sm == edge0) && not (sm == edge1)
      then s
      else drop_pending domain irq_id s

  unfoldable pub msi_write : ℕ → ℕ → ℕ → Aplic → Result Aplic
  unfolding msi_clr_pending send
  msi_write number_cores domain irq_id s =
      let tgt = s.regs target domain (irq_id - 1) in
      if is_unknown number_interrupts irq_id || source_is_inactive number_interrupts domain irq_id s
      then ok s
      else get_m_target_address number_cores (field tgt 18 0x3fff) s >>= λ addr.
          ok (msi_clr_pending domain irq_id (send addr (field tgt 0 0x7ff) s))

  -- One round of `run`: a wait goes on where the thread was notified.
  unfoldable pub run : ℕ → Aplic → Result Aplic
  unfolding hart_get_next_pending_interrupt msi_write
  run number_cores s =
      let woken = record s { notified = false } in
      let int_id = hart_get_next_pending_interrupt aplic_m_domain woken in
      if not s.notified
      then ok s
      else if ltb 0 int_id
      then msi_write number_cores aplic_m_domain int_id woken
      else ok woken
