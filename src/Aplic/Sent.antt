-- ===== src/Aplic/Sent.antt =====
-- What one round of the thread sends, and what it leaves.
use rvvp.Base.{
  ℕ, ◌-◌, ◌≤◌, ◌<◌, ◌≡◌, inl, inr, refl, ◌∙◌, Bool, true, false, not, ◌&&◌, ◌||◌, ◌==◌, ◌∷◌, arith,
}
use rvvp.Core.Result.{ok}
use rvvp.Aplic.State.{
  Aplic, aplic_m_domain, sourcecfg, target, edge0, edge1, set_reg, set_ip, drop_pending, field,
  is_unknown, source_is_inactive,
}
use rvvp.Aplic.Address.{get_m_target_address}
use rvvp.Aplic.Write.{send}
use rvvp.Aplic.Deliver.{hart_get_next_pending_interrupt, msi_clr_pending, msi_write, run}
use rvvp.Aplic.Bits.{pending, enabled, put_not_one}
use rvvp.Aplic.Effect.{active_known}
use rvvp.Aplic.Round.{is_on, is_ready, hart_get_next_pending_interrupt-is_ready, msi_write_sends}

-- The source is sensitive to an edge.
abbrev pub is_edge : Aplic → ℕ → Bool
is_edge s irq =
    let sm = field (s.regs sourcecfg aplic_m_domain (irq - 1)) 0 0x7 in sm == edge0 || sm == edge1

module _ (number_interrupts : ℕ) where
  msi_clr_pending_lem :
      (s : Aplic) (r : ℕ)
      → is_unknown number_interrupts r ≡ false
      → let s' = msi_clr_pending number_interrupts aplic_m_domain r s in
        (s'.sent ≡ s.sent)
        × (s'.notified ≡ s.notified)
        × ((irq : ℕ)
            → (pending s' irq ≡ (pending s irq && not (r == irq && is_edge s r)))
              × (enabled s' irq ≡ enabled s irq))
  unfolding msi_clr_pending drop_pending set_ip set_reg
  msi_clr_pending_lem s r known = (
    ground arith,
    ground arith,
    λ irq. (ground (arith, put_not_one s.ip_reg r irq), ground arith),
  )

  -- The state is the same to the choice when the notification is taken.
  woken_ready :
      (s : Aplic) (irq : ℕ)
      → is_ready number_interrupts (record s { notified = false }) irq
        ≡ is_ready number_interrupts s irq
  unfolding is_ready source_is_inactive
  woken_ready s irq = refl

  chosen_unique :
      (s : Aplic) (r : ℕ)
      → 1 ≤ number_interrupts
      → is_on s ≡ true
      → is_ready number_interrupts s r ≡ true
      → ((irq : ℕ) → irq < r → is_ready number_interrupts s irq ≡ false)
      → hart_get_next_pending_interrupt number_interrupts aplic_m_domain
          (record s { notified = false })
        ≡ r
  chosen_unique s r some_source on ready lowest =
      let woken : Aplic = record s { notified = false } in
      let (r', e, cases) =
        hart_get_next_pending_interrupt-is_ready number_interrupts woken some_source in
      e ∙ elim cases [
        | inl (is_zero, inl off) ↦ cc (on, off)
        | inl (is_zero, inr idle) ↦ cc (ready, idle r, woken_ready s r)
        | inr (on', ready', lowest') ↦
            ground (arith, woken_ready s r, woken_ready s r', lowest r', lowest' r)
      ]

  ready_known :
      (s : Aplic) (irq : ℕ)
      → is_ready number_interrupts s irq ≡ true
      → is_unknown number_interrupts irq ≡ false
  unfolding is_ready
  ready_known s irq ready = ground (arith, active_known number_interrupts s irq)

  run_chosen :
      (cores : ℕ) (s : Aplic) (r : ℕ)
      → s.notified ≡ true
      → 1 ≤ r
      → hart_get_next_pending_interrupt number_interrupts aplic_m_domain
          (record s { notified = false })
        ≡ r
      → run number_interrupts cores s
        ≡ msi_write number_interrupts cores aplic_m_domain r (record s { notified = false })
  unfolding run
  run_chosen cores s r woken some_irq e = ground arith

  -- A round of the thread, behind a notification: where the domain is on, it sends one message, for the
  -- ready source with the lowest number, with the number for the interrupt file and to the address of the
  -- hart that the source's target names. The source stays pending unless it is sensitive to an edge; all
  -- other sources keep their bits, and the thread waits for the next notification, whatever else is ready.
  pub run-is_ready :
      (cores : ℕ) (s : Aplic) (r addr : ℕ)
      → s.notified ≡ true
      → is_on s ≡ true
      → is_ready number_interrupts s r ≡ true
      → ((irq : ℕ) → irq < r → is_ready number_interrupts s irq ≡ false)
      → get_m_target_address cores (field (s.regs target aplic_m_domain (r - 1)) 18 0x3fff) s
        ≡ ok addr
      → (s' : Aplic) × (run number_interrupts cores s ≡ ok s')
        × (s'.sent ≡ (addr, field (s.regs target aplic_m_domain (r - 1)) 0 0x7ff) ∷ s.sent)
        × (s'.notified ≡ false)
        × ((irq : ℕ)
            → (pending s' irq ≡ (pending s irq && not (r == irq && is_edge s r)))
              × (enabled s' irq ≡ enabled s irq))
  unfolding get_m_target_address send
  run-is_ready cores s r addr woken on ready lowest to =
      let t : Aplic = record s { notified = false } in
      let known = ready_known s r ready in
      let tgt = s.regs target aplic_m_domain (r - 1) in
      let e =
        run_chosen cores s r woken (ground (arith, known))
          (chosen_unique s r (ground (arith, known)) on ready lowest) in
      let (sent', notified', bits) =
        msi_clr_pending_lem (send addr (field tgt 0 0x7ff) t) r known in
      (
        msi_clr_pending number_interrupts aplic_m_domain r (send addr (field tgt 0 0x7ff) t),
        e ∙ msi_write_sends number_interrupts cores t r addr (woken_ready s r ∙ ready) to,
        sent',
        notified',
        bits,
      )
