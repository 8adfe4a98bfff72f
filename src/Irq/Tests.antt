-- ===== src/Irq/Tests.antt =====
-- Concrete inputs for the theorems on irq-prio.h.
use rvvp.Base.{ℕ, ◌≡◌, ◌↔◌, refl, true, arith}
use rvvp.Core.Privilege.{machine_mode, supervisor_mode}
use rvvp.Core.Result.{ok}
use rvvp.Irq.Order.{get_external_iid}
use rvvp.Irq.Cprio.{IrqCprio, lt_cprio, external_cprio, local_cprio}
use rvvp.Irq.Ranks.{BeforeExternal, BeforeLocal, lt_cprio-external_cprio, lt_cprio-local_cprio}

abbrev timer : ℕ
timer = 7

external_m : get_external_iid machine_mode ≡ ok 11
unfolding get_external_iid
external_m = refl

external_s : get_external_iid supervisor_mode ≡ ok 9
unfolding get_external_iid
external_s = refl

lt_cprio-external_cprio_example :
    (p : IrqCprio) × (q : IrqCprio) × (local_cprio supervisor_mode 5 3 ≡ ok p)
    × (external_cprio supervisor_mode 40 ≡ ok q)
    × ((lt_cprio p q ≡ true) ↔ BeforeExternal 9 5 3 40)
lt_cprio-external_cprio_example =
    lt_cprio-external_cprio supervisor_mode 9 5 3 external_s (omega arith) (omega arith)
      (omega arith) 40 (omega arith)

lt_cprio-local_cprio_example :
    (p : IrqCprio) × (q : IrqCprio) × (local_cprio supervisor_mode 5 0 ≡ ok p)
    × (local_cprio supervisor_mode 1 2 ≡ ok q)
    × ((lt_cprio p q ≡ true) ↔ BeforeLocal 9 5 0 1 2)
lt_cprio-local_cprio_example =
    lt_cprio-local_cprio supervisor_mode 9 5 0 external_s (omega arith) (omega arith) (omega arith)
      1 2 (omega arith) (omega arith) (omega arith)

abbrev low_prio : IrqCprio
low_prio = record { order = 17; iprio = 3; dpr_0 = 0; lowest_nonexisting = 0 }

abbrev high_prio : IrqCprio
high_prio = record { order = 15; iprio = 300; dpr_0 = 0; lowest_nonexisting = 0 }
