-- ===== src/Plic/State.antt =====
-- fu540_plic: the registers, and the choice of the next interrupt. The two register ranges of a hart
-- are one range for hart 0. A wait on `e_run` is woken where `notified` is set.
use rvvp.Base.{
  ℕ, zero, suc, ◌-◌, ◌/◌, ◌%◌, ◌^◌, Bool, true, not, ◌&&◌, ◌||◌, ltb, leb, ◌==◌, if◌then◌else◌,
  bit_and, bit_or,
}
use rvvp.Base.Bits.{truth, bit_not}
use rvvp.Core.Privilege.{supervisor_mode, machine_mode}
use rvvp.Core.Result.{Result, ok, stop, runtime_error, check, ◌>>◌}

abbrev pub numirq : ℕ
numirq = 53

abbrev pub max_thr : ℕ
max_thr = 7

abbrev pub max_prio : ℕ
max_prio = 7

-- The words of the register ranges: by index, and for the hart's ranges by hart and level.
pub record Plic : Type 0 where
  pub interrupt_priorities : ℕ → ℕ
  pub pending_interrupts : ℕ → ℕ
  pub enabled_irqs : ℕ → ℕ → ℕ → ℕ
  pub threshold : ℕ → ℕ → ℕ
  pub claim : ℕ → ℕ → ℕ
  pub notified : Bool

-- The range for a hart and level.
abbrev pub range_level : ℕ → ℕ → ℕ
range_level hart level = if hart == 0 then machine_mode else level

abbrev pub get_idx : ℕ → ℕ
get_idx irq = irq / 32

abbrev pub get_off : ℕ → ℕ
get_off irq = 2 ^ (irq % 32)

abbrev pub set_word : (ℕ → ℕ) → ℕ → ℕ → ℕ → ℕ
set_word words i v j = if i == j then v else words j

-- A `std::invalid_argument` is taken as a runtime error.
unfoldable pub gateway_trigger_interrupt : ℕ → Plic → Result Plic
gateway_trigger_interrupt irq s =
    if irq == 0 || ltb numirq irq
    then stop runtime_error
    else ok (record s {
      pending_interrupts =
          set_word s.pending_interrupts (get_idx irq)
            (bit_or (s.pending_interrupts (get_idx irq)) (get_off irq));
      notified = true;
    })

abbrev pub valid_irq : ℕ → Bool
valid_irq irq = not (irq == 0) && leb irq numirq

unfoldable pub clear_pending : ℕ → Plic → Result Plic
clear_pending irq s = do
  check (valid_irq irq)
  ok (record s {
    pending_interrupts =
        set_word s.pending_interrupts (get_idx irq)
          (bit_and (s.pending_interrupts (get_idx irq)) (bit_not 32 (get_off irq)));
  })

-- `is_pending` and `is_enabled`, behind their assertions on the number.
unfoldable pub is_pending : Plic → ℕ → Bool
is_pending s irq = truth (bit_and (s.pending_interrupts (get_idx irq)) (get_off irq))

unfoldable pub is_enabled : Plic → ℕ → ℕ → ℕ → Bool
is_enabled s hart level irq =
    truth (bit_and (s.enabled_irqs hart (range_level hart level) (get_idx irq)) (get_off irq))

unfoldable pub get_threshold : Plic → ℕ → ℕ → ℕ
get_threshold s hart level = s.threshold hart (range_level hart level)

-- The interrupts that the loop does not pass over.
unfoldable pub considered : Plic → ℕ → ℕ → Bool → ℕ → Bool
considered s hart level ignth irq =
    is_enabled s hart level irq
    && is_pending s irq
    && (ignth || ltb (get_threshold s hart level) (s.interrupt_priorities (irq - 1)))

-- The loop, with `n` interrupts left from `irq` on.
unfoldable pub select : (ℕ → Bool) → (ℕ → ℕ) → ℕ → ℕ → ℕ → ℕ → ℕ
select test prio zero irq selirq maxpri = selirq
select test prio (suc n) irq selirq maxpri =
    let found = select test prio n (suc irq) irq (prio irq) in
    let passed = select test prio n (suc irq) selirq maxpri in
    if test irq && ltb maxpri (prio irq) then found else passed

-- The levels for which a context exists; for others the source fails an assertion, if an interrupt
-- is looked at, and the model always.
unfoldable pub next_pending_irq : Plic → ℕ → ℕ → Bool → Result ℕ
next_pending_irq s hart level ignth = do
  check (not (hart == 0 && level == supervisor_mode))
  check (level == machine_mode || level == supervisor_mode)
  ok (select (considered s hart level ignth) (λ irq. s.interrupt_priorities (irq - 1)) numirq 1 0 0)
