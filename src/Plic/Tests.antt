-- ===== src/Plic/Tests.antt =====
-- Concrete inputs for the theorems on the interrupt controller.
use rvvp.Base.{
  ℕ, ◌≤◌, ◌<◌, ◌≡◌, ◌⊎◌, ◌↔◌, inl, inr, refl, true, false, not, ◌&&◌, ◌==◌, if◌then◌else◌, some,
  arith,
}
use rvvp.Core.Privilege.{supervisor_mode, machine_mode}
use rvvp.Core.Result.{ok}
use rvvp.Plic.State.{Plic, is_pending, next_pending_irq}
use rvvp.Plic.Context.{read_hartctx, has_pending_irq}
use rvvp.Plic.Select.{IsCandidate, priority, next_pending_irq_best}
use rvvp.Plic.Pending.{IsDue, read_hartctx-next_pending_irq, has_pending_irq-IsDue}

-- Interrupts 3 and 40 are pending and enabled everywhere, 40 with the higher priority.
abbrev two_pending : Plic
two_pending = record {
  interrupt_priorities = λ i. if i == 39 then 5 else 2;
  pending_interrupts = λ i. if i == 0 then 0x8 else 0x100;
  enabled_irqs = λ hart level i. 0xffffffff;
  threshold = λ hart level. 1;
  claim = λ hart level. 0;
  notified = false;
}

next_pending_irq_best_example :
    (r : ℕ) × (next_pending_irq two_pending 1 supervisor_mode false ≡ ok r)
    × (((r ≡ 0)
          × ((irq : ℕ)
              → IsCandidate two_pending 1 supervisor_mode false irq
              → priority two_pending irq ≡ 0))
        ⊎ (IsCandidate two_pending 1 supervisor_mode false r
            × (0 < priority two_pending r)
            × ((irq : ℕ)
                → IsCandidate two_pending 1 supervisor_mode false irq
                → priority two_pending irq ≤ priority two_pending r)
            × ((irq : ℕ)
                → IsCandidate two_pending 1 supervisor_mode false irq
                → irq < r
                → priority two_pending irq < priority two_pending r)))
next_pending_irq_best_example =
    next_pending_irq_best two_pending 1 supervisor_mode false
      (inr (refl, λ h. absurd (omega arith)))

read_hartctx-next_pending_irq_example :
    (r : ℕ) × (s' : Plic) × (next_pending_irq two_pending 0 machine_mode true ≡ ok r)
    × (read_hartctx 4 0 machine_mode two_pending ≡ ok s')
    × (s'.claim 0 machine_mode ≡ r)
    × ((j : ℕ) → 1 ≤ j → is_pending s' j ≡ (is_pending two_pending j && not (r == j)))
read_hartctx-next_pending_irq_example =
    read_hartctx-next_pending_irq two_pending 4 0 machine_mode (inl refl) refl

has_pending_irq-IsDue_example :
    ((has_pending_irq two_pending 1 ≡ ok (some supervisor_mode))
      ↔ IsDue two_pending 1 supervisor_mode)
    × ((has_pending_irq two_pending 1 ≡ ok (some machine_mode))
        ↔ (IsDue two_pending 1 machine_mode × ¬ IsDue two_pending 1 supervisor_mode))
has_pending_irq-IsDue_example = has_pending_irq-IsDue two_pending 1 (λ h. absurd (omega arith))
