-- ===== src/Plic/Select.antt =====
-- The loop of `next_pending_irq` picks the highest priority, and of equals the lowest number.
use rvvp.Base.{
  ℕ, zero, suc, ◌+◌, ◌-◌, ◌≤◌, ◌<◌, ◌≡◌, ◌≢◌, ◌⊎◌, ◌/◌, ◌%◌, inl, inr, refl, sym, ap, ◌∙◌, Bool,
  true, ◌&&◌, ◌||◌, ltb, arith, Bool-cases,
}
use mathlib.Core.Path.{subst}
use native.Mathlib.Decide.{ℕ_discrete}
use rvvp.Core.Privilege.{supervisor_mode, machine_mode}
use rvvp.Core.Result.{ok}
use rvvp.Base.Bits.{test_bit, truth-bit_and-pow}
use rvvp.Plic.State.{
  Plic, considered, select, next_pending_irq, is_enabled, is_pending, get_threshold, range_level,
}

from_first :
    (i last : ℕ) (Q : ℕ → Type 0)
    → Q i
    → ((j : ℕ) → suc i ≤ j → j < last → Q j)
    → (j : ℕ) → i ≤ j
    → j < last
    → Q j
from_first i last Q here all j le lt = elim (ℕ_discrete j i) [
  | yes same ↦ subst Q (sym same) here
  | no other ↦ all j (omega arith) lt
]

module _ (test : ℕ → Bool) (prio : ℕ → ℕ) where
  -- `r` is the best choice among the numbers from `i` up to `last` and a choice made before.
  abbrev pub Best : ℕ → ℕ → ℕ → ℕ → ℕ → Type 0
  Best i last selirq maxpri r =
      ((r ≡ selirq) × ((j : ℕ) → i ≤ j → j < last → test j ≡ true → prio j ≤ maxpri))
      ⊎ ((i ≤ r)
          × (r < last)
          × (test r ≡ true)
          × (maxpri < prio r)
          × ((j : ℕ) → i ≤ j → j < last → test j ≡ true → prio j ≤ prio r)
          × ((j : ℕ) → i ≤ j → j < r → test j ≡ true → prio j < prio r))

  found-Best :
      (i last selirq maxpri r : ℕ)
      → i < last
      → test i ≡ true
      → maxpri < prio i
      → Best (suc i) last i (prio i) r
      → Best i last selirq maxpri r
  found-Best i last selirq maxpri r lt t better (inl (e, all)) =
      let top : prio r ≡ prio i = ap prio e in
      inr (
        omega arith,
        omega arith,
        ap test e ∙ t,
        omega arith,
        from_first i last (λ j. test j ≡ true → prio j ≤ prio r) (λ on. omega arith)
            (λ j le lt_j on. let b = all j le lt_j on in omega arith),
        λ j le lt_j on. absurd (omega arith),
      )
  found-Best i last selirq maxpri r lt t better (inr (le, lt_r, on, more, all, before)) = inr (
    omega arith,
    lt_r,
    on,
    omega arith,
    from_first i last (λ j. test j ≡ true → prio j ≤ prio r) (λ on'. omega arith) all,
    from_first i r (λ j. test j ≡ true → prio j < prio r) (λ on'. omega arith) before,
  )

  passed-Best :
      (i last selirq maxpri r : ℕ)
      → (test i ≡ true → prio i ≤ maxpri)
      → Best (suc i) last selirq maxpri r
      → Best i last selirq maxpri r
  passed-Best i last selirq maxpri r low (inl (e, all)) =
      inl (e, from_first i last (λ j. test j ≡ true → prio j ≤ maxpri) low all)
  passed-Best i last selirq maxpri r low (inr (le, lt_r, on, more, all, before)) = inr (
    omega arith,
    lt_r,
    on,
    more,
    from_first i last (λ j. test j ≡ true → prio j ≤ prio r) (λ on'. let b = low on' in omega arith)
        all,
    from_first i r (λ j. test j ≡ true → prio j < prio r) (λ on'. let b = low on' in omega arith)
        before,
  )

  select-Best :
      (n i last selirq maxpri : ℕ)
      → last ≡ i + n
      → Best i last selirq maxpri (select test prio n i selirq maxpri)
  unfolding select
  select-Best zero i last selirq maxpri e = inl (refl, λ j le lt. absurd (omega arith))
  select-Best (suc n) i last selirq maxpri e = elim (Bool-cases (test i && ltb maxpri (prio i))) [
    | inl better ↦
        rw (better, select)
          (found-Best i last selirq maxpri _ (omega arith) (ground arith) (ground arith)
            (select-Best n (suc i) last i (prio i) (omega arith)))
    | inr worse ↦
        rw (worse, select)
          (passed-Best i last selirq maxpri _ (λ on. ground arith)
            (select-Best n (suc i) last selirq maxpri (omega arith)))
  ]

abbrev pub priority : Plic → ℕ → ℕ
priority s irq = s.interrupt_priorities (irq - 1)

-- The interrupts that may be chosen for a hart and level: from 1 to 53, with their bit set in the
-- context's enable words and in the pending words, and of a priority above the context's threshold
-- unless that is ignored.
abbrev pub IsCandidate : Plic → ℕ → ℕ → Bool → ℕ → Type 0
IsCandidate s hart level ignth irq =
    (1 ≤ irq)
    × (irq ≤ 53)
    × (test_bit (s.enabled_irqs hart level (irq / 32)) (irq % 32) ≡ true)
    × (test_bit (s.pending_interrupts (irq / 32)) (irq % 32) ≡ true)
    × ((ignth ≡ true) ⊎ (s.threshold hart level < priority s irq))

considered_eq :
    (s : Plic) (hart level : ℕ) (ignth : Bool) (irq : ℕ)
    → (level ≡ machine_mode) ⊎ ((level ≡ supervisor_mode) × (hart ≢ 0))
    → considered s hart level ignth irq ≡ (
        test_bit (s.enabled_irqs hart level (irq / 32)) (irq % 32)
        && test_bit (s.pending_interrupts (irq / 32)) (irq % 32)
        && (ignth || ltb (s.threshold hart level) (priority s irq)))
unfolding considered is_enabled is_pending get_threshold
considered_eq s hart level ignth irq context =
    let own : range_level hart level ≡ level = ground arith in
    let above : get_threshold s hart level ≡ s.threshold hart level = ap (s.threshold hart) own in
    rw
      (
        own,
        above,
        truth-bit_and-pow (s.enabled_irqs hart level (irq / 32)) (irq % 32),
        truth-bit_and-pow (s.pending_interrupts (irq / 32)) (irq % 32),
      )
      refl

-- Of the numbers that the loop goes through it considers the candidates.
considered-IsCandidate :
    (s : Plic) (hart level : ℕ) (ignth : Bool) (irq : ℕ)
    → (level ≡ machine_mode) ⊎ ((level ≡ supervisor_mode) × (hart ≢ 0))
    → (1 ≤ irq) × (irq ≤ 53)
    → considered s hart level ignth irq ≡ true
    → IsCandidate s hart level ignth irq
considered-IsCandidate s hart level ignth irq context bounds on =
    let tests = sym (considered_eq s hart level ignth irq context) ∙ on in
    (bounds.0, bounds.1, ground arith, ground arith, ground arith)

IsCandidate-considered :
    (s : Plic) (hart level : ℕ) (ignth : Bool) (irq : ℕ)
    → (level ≡ machine_mode) ⊎ ((level ≡ supervisor_mode) × (hart ≢ 0))
    → IsCandidate s hart level ignth irq
    → considered s hart level ignth irq ≡ true
IsCandidate-considered s hart level ignth irq context (low, high, enabled, pending, above) =
    considered_eq s hart level ignth irq context ∙ rw (enabled, pending) (ground arith)

-- Each hart but the first has a machine and a supervisor context, the first only the machine's. For
-- these the search returns 0 if none of the 53 interrupts whose enable bit and pending bit are set,
-- and whose priority is (unless that is ignored) above the threshold, has a priority other than 0;
-- else it returns such an interrupt, whose priority no other exceeds, and that of no smaller number
-- reaches.
pub next_pending_irq_best :
    (s : Plic) (hart level : ℕ) (ignth : Bool)
    → (level ≡ machine_mode) ⊎ ((level ≡ supervisor_mode) × (hart ≢ 0))
    → (r : ℕ) × (next_pending_irq s hart level ignth ≡ ok r)
      × (((r ≡ 0) × ((irq : ℕ) → IsCandidate s hart level ignth irq → priority s irq ≡ 0))
          ⊎ (IsCandidate s hart level ignth r
              × (0 < priority s r)
              × ((irq : ℕ) → IsCandidate s hart level ignth irq → priority s irq ≤ priority s r)
              × ((irq : ℕ)
                  → IsCandidate s hart level ignth irq
                  → irq < r
                  → priority s irq < priority s r)))
unfolding next_pending_irq
next_pending_irq_best s hart level ignth context =
    let r =
      select (considered s hart level ignth) (λ irq. s.interrupt_priorities (irq - 1)) 53 1 0 0 in
    (
      r,
      ground arith,
      elim (select-Best (considered s hart level ignth) (priority s) 53 1 54 0 0 (omega arith)) [
        | inl (e, all) ↦ inl (
          e,
          λ irq c.
              let b =
                all irq c.0 (omega arith)
                  (IsCandidate-considered s hart level ignth irq context c) in
              omega arith,
        )
        | inr (le, lt, on, more, all, before) ↦ inr (
          considered-IsCandidate s hart level ignth r context (le, omega arith) on,
          more,
          (λ irq c.
              all irq c.0 (omega arith) (IsCandidate-considered s hart level ignth irq context c)),
          (λ irq c less.
              before irq c.0 less (IsCandidate-considered s hart level ignth irq context c)),
        )
      ],
    )
