-- ===== src/Aplic/Round.antt =====
-- One round of the thread: which interrupt is sent, where to, and what is left.
use rvvp.Base.{
  ℕ, zero, suc, ◌+◌, ◌-◌, ◌/◌, ◌%◌, ◌≤◌, ◌<◌, ◌≡◌, ◌⊎◌, inl, inr, refl, ◌∙◌, Bool, true, false, not,
  ◌&&◌, ltb, ◌==◌, if◌then◌else◌, arith, Bool-cases,
}
use rvvp.Base.Bits.{truth-bit_and-pow}
use rvvp.Core.Result.{ok, >>=-ok}
use rvvp.Aplic.State.{
  Aplic, aplic_m_domain, domaincfg, target, field, is_unknown, source_is_inactive,
  is_pending_interrupt,
}
use rvvp.Aplic.Address.{get_m_target_address}
use rvvp.Aplic.Write.{send}
use rvvp.Aplic.Deliver.{next_pending, hart_get_next_pending_interrupt, msi_clr_pending, msi_write}
use rvvp.Aplic.Known.{is_active}
use rvvp.Aplic.Bits.{pending, enabled}
use rvvp.Aplic.Effect.{active_known}

-- The machine domain is on, and delivers messages.
abbrev pub is_on : Aplic → Bool
is_on s =
    not (field (s.regs domaincfg aplic_m_domain 0) 2 0x1 == 0)
    && not (field (s.regs domaincfg aplic_m_domain 0) 8 0x1 == 0)

module _ (number_interrupts : ℕ) where
  -- A source whose interrupt is to be sent.
  unfoldable pub is_ready : Aplic → ℕ → Bool
  is_ready s irq = is_active number_interrupts s irq && (enabled s irq && pending s irq)

  -- The test of the loop.
  test-is_ready :
      (s : Aplic) (irq : ℕ)
      → (not (source_is_inactive number_interrupts aplic_m_domain irq s)
          && is_pending_interrupt number_interrupts aplic_m_domain irq s)
        ≡ is_ready s irq
  unfolding is_pending_interrupt is_ready
  test-is_ready s irq = ground (
    arith,
    active_known number_interrupts s irq,
    truth-bit_and-pow (s.ie_reg aplic_m_domain (irq / 32)) (irq % 32),
    truth-bit_and-pow (s.ip_reg aplic_m_domain (irq / 32)) (irq % 32),
  )

  -- What the loop finds from `irq0` on.
  abbrev Lowest : Aplic → ℕ → ℕ → Type 0
  Lowest s irq0 r =
      ((irq : ℕ) → irq0 ≤ irq → irq < r → is_ready s irq ≡ false)
      × (irq0 ≤ r)
      × ((r ≡ number_interrupts) ⊎ ((is_ready s r ≡ true) × (r < number_interrupts)))

  next_pending-Lowest :
      (s : Aplic) (n irq0 : ℕ)
      → irq0 + n ≡ number_interrupts
      → Lowest s irq0 (next_pending number_interrupts aplic_m_domain s n irq0)
  unfolding next_pending
  next_pending-Lowest s zero irq0 total =
      (λ irq low high. absurd (omega arith), omega arith, inl (omega arith))
  next_pending-Lowest s (suc n) irq0 total =
      let (before, at, end) = next_pending-Lowest s n (suc irq0) (omega arith) in
      elim (Bool-cases (is_ready s irq0)) [
        | inl here ↦
            rw (test-is_ready s irq0, here)
              (λ irq low high. absurd (omega arith), omega arith, inr (here, omega arith))
        | inr later ↦
            rw (test-is_ready s irq0, later)
              (λ irq low high. ground (arith, before irq, later), omega arith, end)
      ]

  unknown_not_ready :
      (s : Aplic) (irq : ℕ) → is_unknown number_interrupts irq ≡ true → is_ready s irq ≡ false
  unfolding is_ready
  unknown_not_ready s irq unknown = ground (arith, active_known number_interrupts s irq)

  -- Below what the loop finds from 1 on, nothing is ready.
  below : (s : Aplic) (r irq : ℕ) → Lowest s 1 r → irq < r → is_ready s irq ≡ false
  below s r zero found low = unknown_not_ready s 0 (ground arith)
  below s r (suc irq) found low = found.0 (suc irq) (omega arith) low

  chosen :
      (s : Aplic)
      → is_on s ≡ true
      → hart_get_next_pending_interrupt number_interrupts aplic_m_domain s ≡ (
          if next_pending number_interrupts aplic_m_domain s (number_interrupts - 1) 1
            == number_interrupts
          then 0
          else next_pending number_interrupts aplic_m_domain s (number_interrupts - 1) 1)
  unfolding hart_get_next_pending_interrupt
  chosen s on = ground arith

  off_none :
      (s : Aplic)
      → is_on s ≡ false
      → hart_get_next_pending_interrupt number_interrupts aplic_m_domain s ≡ 0
  unfolding hart_get_next_pending_interrupt
  off_none s off = ground arith

  -- The interrupt that is chosen: none where the domain is off or no source is ready, and else the ready
  -- source with the lowest number.
  pub hart_get_next_pending_interrupt-is_ready :
      (s : Aplic)
      → 1 ≤ number_interrupts
      → (r : ℕ) × (hart_get_next_pending_interrupt number_interrupts aplic_m_domain s ≡ r)
        × (((r ≡ 0) × ((is_on s ≡ false) ⊎ ((irq : ℕ) → is_ready s irq ≡ false)))
            ⊎ ((is_on s ≡ true)
                × (is_ready s r ≡ true)
                × ((irq : ℕ) → irq < r → is_ready s irq ≡ false)))
  hart_get_next_pending_interrupt-is_ready s some_source =
      let f = next_pending number_interrupts aplic_m_domain s (number_interrupts - 1) 1 in
      let found : Lowest s 1 f = next_pending-Lowest s (number_interrupts - 1) 1 (omega arith) in
      elim (Bool-cases (is_on s)) [
        | inr off ↦ (0, off_none s off, inl (refl, inl off))
        | inl on ↦ elim found.2 [
          | inl end ↦ (
            0,
            chosen s on ∙ ground (arith, end),
            inl (
              refl,
              inr (λ irq. elim (Bool-cases (ltb irq f)) [
                | inl low ↦ below s f irq found (ground arith)
                | inr high ↦ unknown_not_ready s irq (ground (arith, end))
              ]),
            ),
          )
          | inr (ready, low) ↦ (
            f,
            chosen s on ∙ ground arith,
            inr (on, ready, λ irq lower. below s f irq found lower),
          )
        ]
      ]

  pub msi_write_sends :
      (cores : ℕ) (s : Aplic) (r addr : ℕ)
      → is_ready s r ≡ true
      → get_m_target_address cores (field (s.regs target aplic_m_domain (r - 1)) 18 0x3fff) s
        ≡ ok addr
      → msi_write number_interrupts cores aplic_m_domain r s
        ≡ ok (
            msi_clr_pending number_interrupts aplic_m_domain r
              (send addr (field (s.regs target aplic_m_domain (r - 1)) 0 0x7ff) s))
  unfolding msi_write is_ready
  msi_write_sends cores s r addr ready to = ground (
    arith,
    active_known number_interrupts s r,
    >>=-ok (get_m_target_address cores (field (s.regs target aplic_m_domain (r - 1)) 18 0x3fff) s)
        (λ (addr : ℕ). ok (
          msi_clr_pending number_interrupts aplic_m_domain r
            (send addr (field (s.regs target aplic_m_domain (r - 1)) 0 0x7ff) s)))
        to refl,
  )
