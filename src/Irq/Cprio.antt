-- ===== src/Irq/Cprio.antt =====
-- irq-prio.h: `irq_cprio`, a priority that compares as a number. The bit fields of its union lie from
-- the lowest bit on, as the x86 ABI has them: 8 bits of order, 16 of iprio, dpr_0, the mark of
-- what does not exist. `is_upper_bound_valid_minor_iid` is in irq-helpers.h, its bound in config.h.
use rvvp.Base.{ℕ, ◌+◌, ◌*◌, ◌%◌, ◌^◌, Bool, not, ◌&&◌, ltb, leb, ◌==◌, if◌then◌else◌}
use rvvp.Core.Privilege.{is_irq_capable_level}
use rvvp.Core.Result.{Result, ok, stop, assertion, check, ◌>>=◌, ◌>>◌}
use rvvp.Irq.Order.{to_order, get_external_iid, get_dpo, order_min, order_max}

pub record IrqCprio : Type 0 where
  pub order : ℕ
  pub iprio : ℕ
  pub dpr_0 : ℕ
  pub lowest_nonexisting : ℕ

abbrev pub imsic_max_irqs : ℕ
imsic_max_irqs = 2048

-- The number that two priorities are compared by.
unfoldable pub cprio : IrqCprio → ℕ
cprio p = p.order + p.iprio * 2 ^ 8 + p.dpr_0 * 2 ^ 24 + p.lowest_nonexisting * 2 ^ 25

-- `operator<` and `operator==`
abbrev pub lt_cprio : IrqCprio → IrqCprio → Bool
lt_cprio p q = ltb (cprio p) (cprio q)

abbrev pub eq_cprio : IrqCprio → IrqCprio → Bool
eq_cprio p q = cprio p == cprio q

abbrev pub lowest : IrqCprio
lowest = record { order = 0; iprio = 0; dpr_0 = 0; lowest_nonexisting = 1 }

abbrev pub is_upper_bound_valid_minor_iid : ℕ → Bool
is_upper_bound_valid_minor_iid minor_iid = not (leb imsic_max_irqs minor_iid)

-- The constructor of an external interrupt.
unfoldable pub external_cprio : ℕ → ℕ → Result IrqCprio
external_cprio level eiid = do
  check (is_irq_capable_level level)
  check (is_upper_bound_valid_minor_iid eiid)
  external ← get_external_iid level
  order ← to_order external
  ok (record { order = order % 2 ^ 8; iprio = eiid % 2 ^ 16; dpr_0 = 0; lowest_nonexisting = 0 })

-- The constructor of a local interrupt; `iprio` is a byte.
unfoldable pub local_cprio : ℕ → ℕ → ℕ → Result IrqCprio
local_cprio level iid iprio = do
  check (is_irq_capable_level level)
  order ← to_order iid
  let p : IrqCprio = record {
    order = order % 2 ^ 8;
    iprio = iprio % 2 ^ 16;
    dpr_0 = 0;
    lowest_nonexisting = 0;
  }
  if p.iprio == 0 then (do dpo ← get_dpo level iid; ok (record p { dpr_0 = dpo % 2 })) else ok p

-- The constructor of an interrupt that hvictl injects.
unfoldable pub injected_cprio : ℕ → ℕ → Bool → Result IrqCprio
injected_cprio level iprio dpr = do
  check (is_irq_capable_level level)
  ok (record {
    order = if dpr then order_min else order_max;
    iprio = iprio % 2 ^ 16;
    dpr_0 = 0;
    lowest_nonexisting = 0;
  })

abbrev pub is_non_existing : IrqCprio → Bool
is_non_existing p = not (p.lowest_nonexisting == 0)

unfoldable pub to_iprio : IrqCprio → Result ℕ
to_iprio p = do
  check (not (is_non_existing p))
  if leb 1 p.iprio && leb p.iprio 255
      then ok p.iprio
      else if ltb 255 p.iprio
      then ok 255
      else if p.iprio == 0
      then (if p.dpr_0 == 0 then ok 0 else ok 255)
      else stop assertion
