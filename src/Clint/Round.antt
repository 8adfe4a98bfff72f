-- ===== src/Clint/Round.antt =====
-- What a round of the thread of clint.h leaves.
use mathlib.Core.Path.{subst}
use native.Mathlib.Decide.{ℕ_discrete}
use rvvp.Base.{
  ℕ, zero, suc, ◌+◌, ◌-◌, ◌*◌, ◌^◌, ◌≤◌, ◌<◌, ◌≡◌, ◌≢◌, ◌⊎◌, inl, inr, refl, sym, ap, ◌∙◌, Bool,
  true, false, ◌&&◌, ltb, leb, Option, none, some, min, arith,
}
use rvvp.Core.Privilege.{supervisor_mode, machine_mode, virtual_supervisor_mode}
use rvvp.Clint.State.{
  Clint, get_compare_level, process_compare_level, process_hart, process_harts, run,
}

abbrev pub IsLevel : ℕ → Type 0
IsLevel level =
    (level ≡ machine_mode) ⊎ ((level ≡ supervisor_mode) ⊎ (level ≡ virtual_supervisor_mode))

module _ (exists : ℕ → ℕ → Bool) (csr : ℕ → ℕ → ℕ) where
  -- The line of a hart and level is as the timer and the compare register say.
  abbrev pub IsRaised : Clint → ℕ → ℕ → Type 0
  IsRaised s idx level =
      let cmp = get_compare_level exists csr s level idx in
      s.timer_line idx level ≡ (ltb 0 cmp && leb cmp s.mtime)

  -- A comparison leaves the registers, and the lines of other harts and levels.
  process_compare_level_frame :
      (level idx : ℕ) (s : Clint)
      → let s' = process_compare_level exists csr level idx s in
        (s'.mtime ≡ s.mtime)
        × (s'.mtimecmp ≡ s.mtimecmp)
        × ((idx' level' : ℕ)
            → (idx ≢ idx') ⊎ (level ≢ level')
            → s'.timer_line idx' level' ≡ s.timer_line idx' level')
  unfolding process_compare_level
  process_compare_level_frame level idx s =
      (ground arith, ground arith, λ idx' level' apart. ground arith)

  process_compare_level-IsRaised :
      (level idx : ℕ) (s : Clint)
      → exists idx level ≡ true
      → IsRaised (process_compare_level exists csr level idx s) idx level
  unfolding process_compare_level get_compare_level
  process_compare_level-IsRaised level idx s e = ground arith

  frame-IsRaised :
      (level idx : ℕ) (s : Clint) (idx' level' : ℕ)
      → (idx ≢ idx') ⊎ (level ≢ level')
      → IsRaised s idx' level'
      → IsRaised (process_compare_level exists csr level idx s) idx' level'
  unfolding get_compare_level
  frame-IsRaised level idx s idx' level' apart h =
      let (t, c, l) = process_compare_level_frame level idx s in
      let c' : (process_compare_level exists csr level idx s).mtimecmp idx' ≡ s.mtimecmp idx' =
        ap (λ (f : ℕ → ℕ). f idx') c in
      l idx' level' apart ∙ h ∙ ground arith

  process_hart-IsRaised :
      (idx level : ℕ) (s : Clint)
      → IsLevel level
      → exists idx level ≡ true
      → IsRaised (process_hart exists csr idx s) idx level
  unfolding process_hart
  process_hart-IsRaised idx level s (inl m) e =
      let s1 = process_compare_level exists csr machine_mode idx s in
      let s2 = process_compare_level exists csr supervisor_mode idx s1 in
      frame-IsRaised virtual_supervisor_mode idx s2 idx level (inr (omega arith)) (
        frame-IsRaised supervisor_mode idx s1 idx level (inr (omega arith)) (
          subst (IsRaised s1 idx) (sym m)
            (process_compare_level-IsRaised machine_mode idx s (rw m at e))))
  process_hart-IsRaised idx level s (inr (inl m)) e =
      let s1 = process_compare_level exists csr machine_mode idx s in
      let s2 = process_compare_level exists csr supervisor_mode idx s1 in
      frame-IsRaised virtual_supervisor_mode idx s2 idx level (inr (omega arith)) (
        subst (IsRaised s2 idx) (sym m)
          (process_compare_level-IsRaised supervisor_mode idx s1 (rw m at e)))
  process_hart-IsRaised idx level s (inr (inr m)) e =
      let s1 = process_compare_level exists csr machine_mode idx s in
      let s2 = process_compare_level exists csr supervisor_mode idx s1 in
      let s3 = process_compare_level exists csr virtual_supervisor_mode idx s2 in
      subst (IsRaised s3 idx) (sym m)
        (process_compare_level-IsRaised virtual_supervisor_mode idx s2 (rw m at e))

  other_hart-IsRaised :
      (n idx level : ℕ) (s : Clint)
      → n ≢ idx
      → IsRaised s idx level
      → IsRaised (process_hart exists csr n s) idx level
  unfolding process_hart
  other_hart-IsRaised n idx level s apart h =
      let s1 = process_compare_level exists csr machine_mode n s in
      let s2 = process_compare_level exists csr supervisor_mode n s1 in
      frame-IsRaised virtual_supervisor_mode n s2 idx level (inl apart) (
        frame-IsRaised supervisor_mode n s1 idx level (inl apart)
          (frame-IsRaised machine_mode n s idx level (inl apart) h))

  process_harts-IsRaised :
      (n idx level : ℕ) (s : Clint)
      → idx < n
      → IsLevel level
      → exists idx level ≡ true
      → IsRaised (process_harts exists csr n s) idx level
  unfolding process_harts
  process_harts-IsRaised zero idx level s lt l e = absurd (omega arith)
  process_harts-IsRaised (suc n) idx level s lt l e = elim (ℕ_discrete n idx) [
    | yes same ↦
        subst (λ j. IsRaised (process_hart exists csr n (process_harts exists csr n s)) j level)
          same (process_hart-IsRaised n level _ l (rw (← same) at e))
    | no other ↦
        other_hart-IsRaised n idx level _ other
          (process_harts-IsRaised n idx level s (omega arith) l e)
  ]

  -- Behind a round of the thread the timer line of every hart, at each of the three levels that has
  -- a compare register there, is raised exactly if that register is not 0 and not above mtime.
  pub run-IsRaised :
      (harts now idx level : ℕ) (s : Clint)
      → idx < harts
      → IsLevel level
      → exists idx level ≡ true
      → IsRaised (run exists csr harts now s) idx level
  unfolding run
  run-IsRaised harts now idx level s lt l e = process_harts-IsRaised harts idx level _ lt l e

  -- For a level that has a compare register, whose value is above mtime (and hence not 0) and in
  -- picoseconds a 64-bit number: the comparison lowers the line, and leaves a pending notification
  -- whose delay, counted from the time that mtime stands for, ends not later than the register's time.
  pub process_compare_level_wakes :
      (level idx : ℕ) (s : Clint)
      → exists idx level ≡ true
      → let cmp = get_compare_level exists csr s level idx in
        s.mtime < cmp
        → cmp * 1000000 < 2 ^ 64
        → ((process_compare_level exists csr level idx s).timer_line idx level ≡ false)
          × (delay : ℕ) × ((process_compare_level exists csr level idx s).irq_event ≡ some delay)
          × (s.mtime * 1000000 + delay ≤ cmp * 1000000)
  unfolding process_compare_level
  process_compare_level_wakes level idx s e early fits =
      let (delay, pending, soon) = wake s.irq_event refl in (ground arith, delay, pending, soon)
    where
      cmp : ℕ
      cmp = get_compare_level exists csr s level idx

      wake :
          (o : Option ℕ)
          → s.irq_event ≡ o
          → (delay : ℕ) × ((process_compare_level exists csr level idx s).irq_event ≡ some delay)
            × (s.mtime * 1000000 + delay ≤ cmp * 1000000)
      wake none h = ((cmp - s.mtime) * 1000000, ground arith, omega arith)
      wake (some d) h = (min ((cmp - s.mtime) * 1000000) d, ground arith, omega arith)
