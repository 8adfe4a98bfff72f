-- ===== src/Plic/Pending.antt =====
-- The pending bits: what a trigger and a claim do to them, and what is raised for a hart.
use rvvp.Base.{
  ℕ, ◌/◌, ◌%◌, ◌≤◌, ◌<◌, ◌≡◌, ◌≢◌, ◌⊎◌, ◌↔◌, inl, inr, refl, ◌∙◌, true, false, not, ◌&&◌, ◌||◌, ltb,
  ◌==◌, arith, if◌then◌else◌, bit_and, bit_or, Option, none, some,
}
use rvvp.Base.Bits.{set_bit, clear_bit, bit_not, test_bit, truth-bit_and-pow}
use rvvp.Core.Privilege.{supervisor_mode, machine_mode}
use rvvp.Core.Result.{Result, ok}
use rvvp.Plic.State.{
  Plic, range_level, get_idx, get_off, set_word, gateway_trigger_interrupt, clear_pending,
  is_pending, next_pending_irq,
}
use rvvp.Plic.Context.{set_context, is_claim_access, read_hartctx, has_pending_irq}
use rvvp.Plic.Select.{IsCandidate, priority, next_pending_irq_best}

is_pending-eq :
    (s : Plic) (j : ℕ) → is_pending s j ≡ test_bit (s.pending_interrupts (j / 32)) (j % 32)
unfolding is_pending
is_pending-eq s j = truth-bit_and-pow (s.pending_interrupts (j / 32)) (j % 32)

-- A number from 1 to 53 is accepted: its bit is set, all others stay as they are, and the thread is
-- notified.
gateway_trigger_interrupt-is_pending :
    (s : Plic) (irq : ℕ)
    → 1 ≤ irq
    → irq ≤ 53
    → (s' : Plic) × (gateway_trigger_interrupt irq s ≡ ok s')
      × (s'.notified ≡ true)
      × ((j : ℕ) → is_pending s' j ≡ (is_pending s j || irq == j))
unfolding gateway_trigger_interrupt
gateway_trigger_interrupt-is_pending s irq low high =
    let s' : Plic = record s {
      pending_interrupts =
          set_word s.pending_interrupts (get_idx irq)
            (bit_or (s.pending_interrupts (get_idx irq)) (get_off irq));
      notified = true;
    } in
    (
      s',
      ground arith,
      refl,
      λ j.
          is_pending-eq s' j
          ∙ ground (
            arith,
            is_pending-eq s j,
            set_bit (s.pending_interrupts (irq / 32)) (irq % 32) (j % 32),
          ),
    )

-- The bits behind `clear_pending`.
clear_pending-is_pending :
    (s : Plic) (irq : ℕ)
    → 1 ≤ irq
    → irq ≤ 53
    → (s' : Plic) × (clear_pending irq s ≡ ok s')
      × (s'.claim ≡ s.claim)
      × ((j : ℕ) → is_pending s' j ≡ (is_pending s j && not (irq == j)))
unfolding clear_pending
clear_pending-is_pending s irq low high =
    let s' : Plic = record s {
      pending_interrupts =
          set_word s.pending_interrupts (get_idx irq)
            (bit_and (s.pending_interrupts (get_idx irq)) (bit_not 32 (get_off irq)));
    } in
    (
      s',
      ground arith,
      refl,
      λ j.
          is_pending-eq s' j
          ∙ ground (
            arith,
            is_pending-eq s j,
            clear_bit (s.pending_interrupts (irq / 32)) (irq % 32) (j % 32) (omega arith)
                (omega arith),
          ),
    )

-- The contexts of a hart: machine, and supervisor for all harts but the first.
abbrev pub HasContext : ℕ → ℕ → Type 0
HasContext hart level = (level ≡ machine_mode) ⊎ ((level ≡ supervisor_mode) × (hart ≢ 0))

claim-eq :
    (s : Plic) (addr hart level r : ℕ)
    → is_claim_access addr ≡ true
    → next_pending_irq s hart level true ≡ ok r
    → let s' : Plic = record s { claim = set_context s.claim hart (range_level hart level) r } in
      read_hartctx addr hart level s ≡ (if not (r == 0) then clear_pending r s' else ok s')
unfolding read_hartctx
claim-eq s addr hart level r claim e = rw (claim, e) refl

claimed :
    (s : Plic) (hart level r : ℕ)
    → (r ≡ 0) ⊎ ((1 ≤ r) × (r ≤ 53))
    → let s0 : Plic = record s { claim = set_context s.claim hart (range_level hart level) r } in
      (s' : Plic) × ((if not (r == 0) then clear_pending r s0 else ok s0) ≡ ok s')
      × (s'.claim hart (range_level hart level) ≡ r)
      × ((j : ℕ) → 1 ≤ j → is_pending s' j ≡ (is_pending s j && not (r == j)))
unfolding is_pending
claimed s hart level r (inl none_left) =
    let s0 : Plic = record s { claim = set_context s.claim hart (range_level hart level) r } in
    (s0, ground arith, ground arith, λ j pos_j. ground arith)
claimed s hart level r (inr (low, high)) =
    let s0 : Plic = record s { claim = set_context s.claim hart (range_level hart level) r } in
    let (s', e, same, bits) = clear_pending-is_pending s0 r low high in
    (s', ground arith, rw same (ground arith), λ j pos_j. bits j)

-- A read of a claim register of an existing context returns the interrupt that the search finds when
-- it ignores the threshold, in the register, and clears the pending bit of that one and no other.
pub read_hartctx-next_pending_irq :
    (s : Plic) (addr hart level : ℕ)
    → HasContext hart level
    → is_claim_access addr ≡ true
    → (r : ℕ) × (s' : Plic) × (next_pending_irq s hart level true ≡ ok r)
      × (read_hartctx addr hart level s ≡ ok s')
      × (s'.claim hart (range_level hart level) ≡ r)
      × ((j : ℕ) → 1 ≤ j → is_pending s' j ≡ (is_pending s j && not (r == j)))
read_hartctx-next_pending_irq s addr hart level context claim =
    let (r, e, best) = next_pending_irq_best s hart level true context in
    let valid : (r ≡ 0) ⊎ ((1 ≤ r) × (r ≤ 53)) = elim best [
      | inl nothing ↦ inl nothing.0
      | inr something ↦ inr (something.0.0, something.0.1)
    ] in
    let (s', e', reg, bits) = claimed s hart level r valid in
    (r, s', e, claim-eq s addr hart level r claim e ∙ e', reg, bits)

-- Some interrupt that is enabled for the context, pending and above its threshold has a priority
-- other than 0.
abbrev pub IsDue : Plic → ℕ → ℕ → Type 0
IsDue s hart level = (irq : ℕ) × IsCandidate s hart level false irq × (0 < priority s irq)

next_pending_irq-IsDue :
    (s : Plic) (hart level : ℕ)
    → HasContext hart level
    → (r : ℕ) × (next_pending_irq s hart level false ≡ ok r) × ((0 < r) ↔ IsDue s hart level)
next_pending_irq-IsDue s hart level context =
    let (r, e, best) = next_pending_irq_best s hart level false context in
    (
      r,
      e,
      elim best [
        | inl (zero_r, all) ↦ (
          (λ h. absurd (omega arith)),
          λ due. let none_due = all due.0 due.1 in let pos_due = due.2 in absurd (omega arith),
        )
        | inr (c, more, _, _) ↦ ((λ h. (r, c, more)), λ due. c.0)
      ],
    )

abbrev line : ℕ → ℕ → Option ℕ
line r r' = if ltb 0 r then some supervisor_mode else if ltb 0 r' then some machine_mode else none

has_pending_irq-eq :
    (s : Plic) (hart r r' : ℕ)
    → hart ≢ 0
    → next_pending_irq s hart supervisor_mode false ≡ ok r
    → next_pending_irq s hart machine_mode false ≡ ok r'
    → has_pending_irq s hart ≡ ok (line r r')
unfolding has_pending_irq
has_pending_irq-eq s hart r r' other e e' =
    let h : (hart == 0) ≡ false = ground arith in rw (h, e, e') (ground arith)

line_s :
    {x : Result (Option ℕ)} (r r' : ℕ) → x ≡ ok (line r r') → x ≡ ok (some supervisor_mode) → 0 < r
line_s r r' run h = ground arith

line_m :
    {x : Result (Option ℕ)} (r r' : ℕ)
    → x ≡ ok (line r r')
    → x ≡ ok (some machine_mode)
    → (0 < r') × ¬ (0 < r)
line_m r r' run h = ground arith

-- For a hart but the first, the supervisor line is raised exactly if an interrupt is due for the
-- supervisor, and the machine line exactly if one is due for the machine and none for the
-- supervisor.
pub has_pending_irq-IsDue :
    (s : Plic) (hart : ℕ)
    → hart ≢ 0
    → ((has_pending_irq s hart ≡ ok (some supervisor_mode)) ↔ IsDue s hart supervisor_mode)
      × ((has_pending_irq s hart ≡ ok (some machine_mode))
          ↔ (IsDue s hart machine_mode × ¬ IsDue s hart supervisor_mode))
has_pending_irq-IsDue s hart other =
    let (r, e, due) = next_pending_irq-IsDue s hart supervisor_mode (inr (refl, other)) in
    let (r', e', due') = next_pending_irq-IsDue s hart machine_mode (inl refl) in
    let run = has_pending_irq-eq s hart r r' other e e' in
    (
      ((λ h. due.0 (line_s r r' run h)), λ d. let p = due.1 d in run ∙ ground arith),
      (
        (λ h. (due'.0 (line_m r r' run h).0, λ d. (line_m r r' run h).1 (due.1 d))),
        λ d.
            let p = due'.1 d.0 in let q : ¬ (0 < r) = λ h. d.1 (due.0 h) in run ∙ ground (arith, q),
      ),
    )
