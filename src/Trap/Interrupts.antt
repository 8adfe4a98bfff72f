-- ===== src/Trap/Interrupts.antt =====
-- The mode that an interrupt is taken to.
use rvvp.Base.{ℕ, true, ◌≡◌, ◌≢◌, ◌⊎◌, ◌↔◌, refl, arith}
use rvvp.Base.Bits.{truth}
use rvvp.Core.Privilege.{supervisor_mode, machine_mode, virtual_user_mode, virtual_supervisor_mode}
use rvvp.Core.Result.{ok}
use rvvp.Trap.State.{Hart}
use rvvp.Trap.Return.{is_irq_globaly_enable_per_level}
use rvvp.Trap.Step.{PendingInterrupts, none_mode, compute_pending_interrupt}
use rvvp.Trap.Jump.{IsLevel, TrapsTo}

module _ {M : Type 0} where
  -- An interrupt for a mode is pending, and the hart is at a level below that mode, or in it with its
  -- interrupts on.
  abbrev pub DueM : PendingInterrupts → Hart M → Type 0
  DueM p h = (truth p.m_pending ≡ true) × ((h.prv ≢ machine_mode) ⊎ (h.mstatus.mie ≡ true))

  abbrev pub DueS : PendingInterrupts → Hart M → Type 0
  DueS p h =
      (truth p.s_hs_pending ≡ true)
      × (h.prv ≢ machine_mode)
      × ((h.prv ≢ supervisor_mode) ⊎ (h.mstatus.sie ≡ true))

  abbrev pub DueVs : PendingInterrupts → Hart M → Type 0
  DueVs p h =
      (truth p.vs_pending ≡ true)
      × ((h.prv ≡ virtual_user_mode)
          ⊎ ((h.prv ≡ virtual_supervisor_mode) × (h.vsstatus.sie ≡ true)))

  -- At every level the choice returns: machine mode where an interrupt is due for it, else the
  -- supervisor, else the virtual supervisor, and no mode where none is due. A chosen mode is never less
  -- privileged than the level of the hart.
  pub compute_pending_interrupt-TrapsTo :
      (p : PendingInterrupts) (h : Hart M)
      → IsLevel h.prv
      → (t : ℕ) × (compute_pending_interrupt p h ≡ ok t)
        × ((t ≡ machine_mode) ↔ DueM p h)
        × ((t ≡ supervisor_mode) ↔ ((¬ DueM p h) × DueS p h))
        × ((t ≡ virtual_supervisor_mode) ↔ ((¬ DueM p h) × (¬ DueS p h) × DueVs p h))
        × ((t ≡ none_mode) ⊎ TrapsTo t h.prv)
  unfolding compute_pending_interrupt is_irq_globaly_enable_per_level
  compute_pending_interrupt-TrapsTo p h level =
      (_, refl, ground arith, ground arith, ground arith, ground arith)
