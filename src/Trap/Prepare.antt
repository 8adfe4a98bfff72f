-- ===== src/Trap/Prepare.antt =====
-- iss.cpp: `prepare_trap`, the delegation of a trap to the mode that handles it.
use rvvp.Base.{ℕ, Bool, false, not, ◌||◌, ◌==◌, ltb, ◌%◌, ◌^◌, if◌then◌else◌, bit_and}
use rvvp.Base.Bits.{truth}
use rvvp.Core.Privilege.{
  user_mode, supervisor_mode, machine_mode, virtual_user_mode, virtual_supervisor_mode,
}
use rvvp.Core.Result.{Result, ok, stop, runtime_error, SimulationTrap, check, ◌>>=◌, ◌>>◌}
use rvvp.Instr.Fields.{is_compressed}
use rvvp.Instr.Xtinst.{get_xtinst}
use rvvp.Trap.State.{Hart, Cause}

-- `ISS::get_xtinst`: the faults for which the handler is shown the instruction.
unfoldable pub is_transformed : ℕ → Bool
is_transformed reason =
    reason == 13 || reason == 15 || reason == 21 || reason == 23 || reason == 5 || reason == 7

unfoldable pub xtinst_of : ℕ → ℕ → ℕ
unfolding is_transformed
xtinst_of instr reason =
    if is_compressed instr then 0 else if is_transformed reason then get_xtinst instr else 0

-- `boost::lexical_cast<uint32_t>` of an `uint64_t` throws where the value does not fit.
unfoldable pub lexical_cast_32 : ℕ → Result ℕ
lexical_cast_32 value = if ltb value (2 ^ 32) then ok value else stop runtime_error

-- `exc_bit & csrs.medeleg.reg`; the reasons are less than 32.
unfoldable pub is_delegated : ℕ → ℕ → Bool
is_delegated reason deleg = truth (bit_and (2 ^ reason % 2 ^ 32) deleg)

abbrev pub exception : ℕ → Cause
exception reason = record { interrupt = false; exception_code = reason }

module _ {M : Type 0} where
  -- The three ends of `prepare_trap`.
  unfoldable pub taken_by_m : SimulationTrap → Hart M → Result (ℕ × Hart M)
  unfolding xtinst_of lexical_cast_32
  taken_by_m e h = lexical_cast_32 e.mtval >>= λ tval. lexical_cast_32 e.mtval2_htval >>= λ tval2.
      let tinst = xtinst_of h.instr e.reason in
      let cause = exception e.reason in
      ok (
        machine_mode,
        record h { m = record h.m { cause = cause; tval = tval; tval2 = tval2; tinst = tinst } },
      )

  unfoldable pub taken_by_s : SimulationTrap → Hart M → Result (ℕ × Hart M)
  unfolding xtinst_of lexical_cast_32
  taken_by_s e h = lexical_cast_32 e.mtval >>= λ tval. lexical_cast_32 e.mtval2_htval >>= λ tval2.
      let tinst = xtinst_of h.instr e.reason in
      let cause = exception e.reason in
      ok (
        supervisor_mode,
        record h { s = record h.s { cause = cause; tval = tval; tval2 = tval2; tinst = tinst } },
      )

  unfoldable pub taken_by_vs : SimulationTrap → Hart M → Result (ℕ × Hart M)
  unfolding lexical_cast_32
  taken_by_vs e h = lexical_cast_32 e.mtval >>= λ tval. ok (
    virtual_supervisor_mode,
    record h { vs = record h.vs { cause = exception e.reason; tval = tval } },
  )

  -- The mode that handles the trap, and the hart with the program counter back at the instruction.
  unfoldable pub prepare_trap : SimulationTrap → Hart M → Result (ℕ × Hart M)
  unfolding is_delegated taken_by_m taken_by_s taken_by_vs
  prepare_trap e left =
      let h : Hart M = record left { pc = left.last_pc } in
      if h.prv == machine_mode || not (is_delegated e.reason h.medeleg)
      then taken_by_m e h
      else if h.prv == supervisor_mode
          || h.prv == user_mode
          || not (is_delegated e.reason h.hedeleg)
      then check (
          h.prv == supervisor_mode
          || h.prv == user_mode
          || h.prv == virtual_supervisor_mode
          || h.prv == virtual_user_mode)
        >> taken_by_s e h
      else check (h.prv == virtual_supervisor_mode || h.prv == virtual_user_mode)
        >> (check (is_delegated e.reason h.medeleg)
            >> (check (is_delegated e.reason h.hedeleg) >> taken_by_vs e h))
