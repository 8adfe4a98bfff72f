-- ===== src/Clint/Tests.antt =====
-- Concrete inputs for the theorems on the core local interruptor.
use rvvp.Base.{
  ℕ, ◌+◌, ◌*◌, ◌≤◌, ◌<◌, ◌≡◌, inl, refl, Bool, false, none, some, ◌==◌, if◌then◌else◌, arith,
}
use rvvp.Core.Privilege.{machine_mode}
use rvvp.Clint.State.{Clint, get_compare_level, process_compare_level, run}
use rvvp.Clint.Round.{IsRaised, run-IsRaised, process_compare_level_wakes}

-- Two harts with a compare register at machine level only; the first is due at 5, the second at 9.
abbrev only_machine : ℕ → ℕ → Bool
only_machine idx level = level == machine_mode

abbrev no_csr : ℕ → ℕ → ℕ
no_csr idx level = 0

abbrev two_harts : Clint
two_harts = record {
  mtime = 3;
  mtimecmp = λ idx. if idx == 0 then 5 else 9;
  irq_event = none;
  timer_line = λ hart level. false;
}

run-IsRaised_example :
    IsRaised only_machine no_csr (run only_machine no_csr 2 7000000 two_harts) 0 machine_mode
run-IsRaised_example =
    run-IsRaised only_machine no_csr 2 7000000 0 machine_mode two_harts (omega arith) (inl refl)
      refl

early : 3 < get_compare_level only_machine no_csr two_harts machine_mode 1
unfolding get_compare_level
early = omega arith

fits :
    get_compare_level only_machine no_csr two_harts machine_mode 1 * 1000000 < 18446744073709551616
unfolding get_compare_level
fits = omega arith

process_compare_level_wakes_example :
    ((process_compare_level only_machine no_csr machine_mode 1 two_harts).timer_line 1 machine_mode
      ≡ false)
    × (delay : ℕ) × ((process_compare_level only_machine no_csr machine_mode 1 two_harts).irq_event
        ≡ some delay)
    × (3 * 1000000 + delay
        ≤ get_compare_level only_machine no_csr two_harts machine_mode 1 * 1000000)
process_compare_level_wakes_example =
    process_compare_level_wakes only_machine no_csr machine_mode 1 two_harts refl early fits
