-- ===== src/Clint/State.antt =====
-- clint.h: the timer registers, the comparison for one level of one hart, and the thread. What the
-- harts implement (clint_interrupt_target of irq_if.h) is a parameter: whether a level has a compare
-- register, and the value of those that are no registers of the device.
use rvvp.Base.{
  ℕ, zero, suc, ◌+◌, ◌-◌, ◌*◌, ◌/◌, ◌%◌, ◌^◌, Bool, true, false, ◌&&◌, ltb, leb, ◌==◌,
  if◌then◌else◌, Option, none, some, min, not, bit_and,
}
use rvvp.Core.Privilege.{supervisor_mode, machine_mode, virtual_supervisor_mode}

abbrev pub scaler : ℕ
scaler = 1000000

-- `irq_event` holds the delay of the pending notification; the lines are those of the harts.
pub record Clint : Type 0 where
  pub mtime : ℕ
  pub mtimecmp : ℕ → ℕ
  pub irq_event : Option ℕ
  pub timer_line : ℕ → ℕ → Bool

-- A notification replaces a pending one only if it is earlier.
abbrev pub notify : ℕ → Option ℕ → Option ℕ
notify delay none = some delay
notify delay (some earlier) = some (min delay earlier)

abbrev pub set_line : (ℕ → ℕ → Bool) → ℕ → ℕ → Bool → ℕ → ℕ → Bool
set_line lines hart level b hart' level' =
    if hart == hart' && level == level' then b else lines hart' level'

-- `update_and_get_mtime` at the simulation time `now`, in picoseconds.
unfoldable pub update_and_get_mtime : ℕ → Clint → Clint
update_and_get_mtime now s =
    if ltb s.mtime (now / scaler) then record s { mtime = now / scaler } else s

-- A read of mtime sets it from the time `now` of the reader.
unfoldable pub pre_read_mtime : ℕ → Clint → Clint
pre_read_mtime now s = record s { mtime = now / scaler }

-- What a write of a word of msip or ssip leaves, and whether it raises the software interrupt.
unfoldable pub post_write_sip : ℕ → ℕ × Bool
post_write_sip value = let bit = bit_and value 1 in (bit, not (bit == 0))

module _ (is_timer_compare_level_exists : ℕ → ℕ → Bool) (get_xtimecmp_level_csr : ℕ → ℕ → ℕ) where
  unfoldable pub get_compare_level : Clint → ℕ → ℕ → ℕ
  get_compare_level s level idx =
      if level == machine_mode then s.mtimecmp idx else get_xtimecmp_level_csr idx level

  unfoldable pub process_compare_level : ℕ → ℕ → Clint → Clint
  process_compare_level level idx s =
      let cmp = get_compare_level s level idx in
      if is_timer_compare_level_exists idx level
      then (if ltb 0 cmp && leb cmp s.mtime
          then record s { timer_line = set_line s.timer_line idx level true }
          else if ltb 0 cmp && ltb cmp (2 ^ 64 - 1)
          then record s {
            timer_line = set_line s.timer_line idx level false;
            irq_event =
                notify ((cmp * scaler % 2 ^ 64 + 2 ^ 64 - s.mtime * scaler % 2 ^ 64) % 2 ^ 64)
                  s.irq_event;
          }
          else record s { timer_line = set_line s.timer_line idx level false })
      else s

  unfoldable pub process_hart : ℕ → Clint → Clint
  process_hart idx s =
      process_compare_level virtual_supervisor_mode idx
        (process_compare_level supervisor_mode idx (process_compare_level machine_mode idx s))

  -- The loop of the thread, for the harts below `n`.
  unfoldable pub process_harts : ℕ → Clint → Clint
  process_harts zero s = s
  process_harts (suc n) s = process_hart n (process_harts n s)

  -- A round of `run`, woken by the event at the time `now`.
  unfoldable pub run : ℕ → ℕ → Clint → Clint
  run harts now s = process_harts harts (update_and_get_mtime now (record s { irq_event = none }))
