-- ===== src/Trap/Delegation.antt =====
-- The mode that handles an exception, and what its handler finds.
use rvvp.Base.{
  ap, ◌∙◌, ◌%◌, every, every_sound, ==_iff, ℕ, ◌<◌, ◌^◌, true, false, ◌≡◌, ◌≢◌, ◌⊎◌, ◌↔◌, refl,
  ◌==◌, arith,
}
use rvvp.Base.Bits.{test_bit, truth-bit_and-pow, bit_and_comm}
use rvvp.Core.Privilege.{
  supervisor_mode, machine_mode, virtual_supervisor_mode, is_irq_capable_level,
}
use rvvp.Core.Result.{Stop, ok, stop, >>=-ok, ok_of_not_stop, SimulationTrap}
use rvvp.Trap.State.{Hart, Callees, Cause, registers, get_base_address}
use rvvp.Trap.Stack.{
  swap_mtsp, swap_vstsp, swap_stsp, swap_htsp, swap_from_v, swap_from_user,
  stsp_swap_sp_on_mode_change, release_lr_sc_reservation,
}
use rvvp.Trap.Prepare.{
  is_delegated, lexical_cast_32, taken_by_m, taken_by_s, taken_by_vs, prepare_trap, exception,
}
use rvvp.Trap.Enter.{
  save_for_m, save_for_vs, save_for_s, save_for, vector_to, verify_m_trap_vector,
  jump_to_trap_vector, switch_to_trap_handler,
}
use rvvp.Trap.Step.{take_trap}
use rvvp.Trap.Jump.{
  Virtual, IsLevel, TrapsTo, Jumped, jump_to_trap_vector-Jumped, entered, switch-entered,
}
use rvvp.Trap.Return.{is_irq_globaly_enable_per_level, return_from_trap_handler}
use rvvp.Trap.RoundTrip.{Restored, Restored-trans, return_from_trap_handler-switch_to_trap_handler}

-- The values of a trap fit the registers.
abbrev pub Fits : SimulationTrap → Type 0
Fits e = (e.reason < 32) × (e.mtval < 2 ^ 32) × (e.mtval2_htval < 2 ^ 32)

-- A trap stays in machine mode, and is taken to it unless it is delegated; a delegated trap is taken to
-- the virtual supervisor if it is delegated once more and comes from a virtual level.
abbrev pub IsTarget : {M : Type 0} → SimulationTrap → Hart M → ℕ → Type 0
IsTarget e h t =
    ((t ≡ machine_mode) ↔ ((h.prv ≡ machine_mode) ⊎ (test_bit h.medeleg e.reason ≡ false)))
    × ((t ≡ virtual_supervisor_mode) ↔ (
        Virtual h.prv
        × (test_bit h.medeleg e.reason ≡ true)
        × (test_bit h.hedeleg e.reason ≡ true)))
    × ((t ≡ machine_mode) ⊎ (t ≡ supervisor_mode) ⊎ (t ≡ virtual_supervisor_mode))

pow_mod : (k : ℕ) → k < 32 → 2 ^ k % 2 ^ 32 ≡ 2 ^ k
unfolding every
pow_mod k h =
    let computed : every 32 (λ (i : ℕ). 2 ^ i % 2 ^ 32 == 2 ^ i) ≡ true = refl in
    (==_iff _ _).0 (every_sound 32 (λ (i : ℕ). 2 ^ i % 2 ^ 32 == 2 ^ i) computed k h)

is_delegated-test_bit :
    (reason deleg : ℕ) → reason < 32 → is_delegated reason deleg ≡ test_bit deleg reason
unfolding is_delegated
is_delegated-test_bit reason deleg h =
    rw (pow_mod reason h, bit_and_comm (2 ^ reason) deleg) (truth-bit_and-pow deleg reason)

module _ {M : Type 0} where
  prepare_trap_never_stops :
      (e : SimulationTrap) (h : Hart M)
      → Fits e
      → IsLevel h.prv
      → (why : Stop) → prepare_trap e h ≢ stop why
  unfolding prepare_trap taken_by_m taken_by_s taken_by_vs lexical_cast_32
  prepare_trap_never_stops e h fits level why = ground arith

  pub prepare_trap-IsTarget :
      (e : SimulationTrap) (h h' : Hart M) (t : ℕ)
      → e.reason < 32
      → IsLevel h.prv
      → prepare_trap e h ≡ ok (t, h')
      → IsTarget e h t × TrapsTo t h.prv
  unfolding prepare_trap taken_by_m taken_by_s taken_by_vs lexical_cast_32
  prepare_trap-IsTarget e h h' t small level prepared = ground (
    arith,
    is_delegated-test_bit e.reason h.medeleg small,
    is_delegated-test_bit e.reason h.hedeleg small,
  )

  prepare_trap-Restored :
      (e : SimulationTrap) (h h' : Hart M) (t : ℕ)
      → prepare_trap e h ≡ ok (t, h')
      → Restored (record h { pc = h.last_pc }) h'
  unfolding prepare_trap taken_by_m taken_by_s taken_by_vs lexical_cast_32
  prepare_trap-Restored e h h' t prepared = ground arith

  pub prepare_trap-levels :
      (e : SimulationTrap) (h h' : Hart M) (t : ℕ)
      → prepare_trap e h ≡ ok (t, h')
      → (h'.prv ≡ h.prv)
        × (h'.mpv ≡ h.mpv)
        × (h'.mstatus ≡ h.mstatus)
        × (h'.hstatus ≡ h.hstatus)
        × (h'.vsstatus ≡ h.vsstatus)
  unfolding prepare_trap taken_by_m taken_by_s taken_by_vs lexical_cast_32
  prepare_trap-levels e h h' t prepared = ground arith

  -- The registers for the handler.
  prepare_trap-registers :
      (e : SimulationTrap) (h h' : Hart M) (t : ℕ)
      → prepare_trap e h ≡ ok (t, h')
      → ((registers t h').cause ≡ exception e.reason)
        × ((registers t h').tval ≡ e.mtval)
        × (h'.m.tvec ≡ h.m.tvec)
        × (h'.error_on_zero_traphandler ≡ h.error_on_zero_traphandler)
  unfolding prepare_trap taken_by_m taken_by_s taken_by_vs lexical_cast_32
  prepare_trap-registers e h h' t prepared = ground arith

  entered_never_stops :
      (c : Callees M) (t : ℕ) (h : Hart M)
      → TrapsTo t h.prv
      → (why : Stop) → entered c t h ≢ stop why
  unfolding entered release_lr_sc_reservation stsp_swap_sp_on_mode_change save_for save_for_m
      save_for_s save_for_vs
  entered_never_stops c t h traps why = ground arith

  jump_never_stops :
      (c : Callees M) (t : ℕ) (h : Hart M) {prv : ℕ}
      → TrapsTo t prv
      → (registers t h).cause.interrupt ≡ false
      → (get_base_address h.m.tvec ≢ 0) ⊎ (h.error_on_zero_traphandler ≡ false)
      → (why : Stop) → jump_to_trap_vector c t h ≢ stop why
  unfolding jump_to_trap_vector vector_to verify_m_trap_vector is_irq_capable_level
  jump_never_stops c t h traps no_interrupt vector why = ground arith

  switch-registers :
      (c : Callees M) (t : ℕ) (h saved h' : Hart M)
      → Jumped saved h'
      → TrapsTo t h.prv
      → entered c t h ≡ ok saved
      → ((registers t h').epc ≡ h.pc)
        × ((registers t h').cause ≡ (registers t h).cause)
        × ((registers t h').tval ≡ (registers t h).tval)
        × (h'.lr_sc_counter ≡ 0)
        × (h'.m.tvec ≡ h.m.tvec)
        × (h'.error_on_zero_traphandler ≡ h.error_on_zero_traphandler)
  unfolding entered release_lr_sc_reservation stsp_swap_sp_on_mode_change save_for save_for_m
      save_for_s save_for_vs swap_from_v swap_from_user swap_htsp swap_stsp swap_mtsp swap_vstsp
  switch-registers c t h saved h' jumped traps first = ground arith

  -- The entry for an exception.
  switch_returns :
      (c : Callees M) (t : ℕ) (h : Hart M)
      → TrapsTo t h.prv
      → (registers t h).cause.interrupt ≡ false
      → (get_base_address h.m.tvec ≢ 0) ⊎ (h.error_on_zero_traphandler ≡ false)
      → (h' : Hart M) × (switch_to_trap_handler c t h ≡ ok h')
        × ((registers t h').epc ≡ h.pc)
        × ((registers t h').cause ≡ (registers t h).cause)
        × ((registers t h').tval ≡ (registers t h).tval)
        × (h'.lr_sc_counter ≡ 0)
  switch_returns c t h traps no_interrupt vector =
      let (saved, first) = ok_of_not_stop (entered c t h) (entered_never_stops c t h traps) in
      let (e, cause, val, counter, same, flag) =
        switch-registers c t h saved saved refl traps first in
      let (h', second) = ok_of_not_stop (jump_to_trap_vector c t saved) (
        jump_never_stops c t saved traps (ap (λ (x : Cause). x.interrupt) cause ∙ no_interrupt)
          (rw (same, flag) vector)) in
      let (e', cause', val', counter', same', flag') =
        switch-registers c t h saved h' (jump_to_trap_vector-Jumped c t saved h' second) traps
          first in
      (h', switch-entered c t h saved first ∙ second, e', cause', val', counter')

  -- A trap at any level whose values fit the registers, where machine mode has a vector or the check for
  -- it is off, is taken: the entry of a handler returns, in the mode that delegation asks for. There the
  -- interrupts of that mode are off, no load is reserved, and the registers of the mode tell the program
  -- counter of the instruction, the reason and the address of the trap. The return from the handler, at
  -- once, leads back to the instruction, with the stack pointers and enable bits as before the trap.
  pub take_trap-IsTarget :
      (c : Callees M) (e : SimulationTrap) (h : Hart M)
      → Fits e
      → IsLevel h.prv
      → (get_base_address h.m.tvec ≢ 0) ⊎ (h.error_on_zero_traphandler ≡ false)
      → (t : ℕ) × (h' : Hart M) × (back : Hart M) × (take_trap c e h ≡ ok h')
        × IsTarget e h t
        × (h'.prv ≡ t)
        × (is_irq_globaly_enable_per_level t h' ≡ ok false)
        × (h'.lr_sc_counter ≡ 0)
        × ((registers t h').epc ≡ h.last_pc)
        × ((registers t h').cause ≡ record { interrupt = false; exception_code = e.reason })
        × ((registers t h').tval ≡ e.mtval)
        × (return_from_trap_handler t h' ≡ ok back)
        × Restored (record h { pc = h.last_pc }) back
  unfolding take_trap
  take_trap-IsTarget c e h fits level vector =
      let ((t, prepared), first) =
        ok_of_not_stop (prepare_trap e h) (prepare_trap_never_stops e h fits level) in
      let (target, traps) = prepare_trap-IsTarget e h prepared t fits.0 level first in
      let (cause, val, same, flag) = prepare_trap-registers e h prepared t first in
      let kept = prepare_trap-Restored e h prepared t first in
      let from : TrapsTo t prepared.prv = rw kept.prv_same traps in
      let (h', second, epc', cause', val', counter) =
        switch_returns c t prepared from (ap (λ (x : Cause). x.interrupt) cause)
          (rw (same, flag) vector) in
      let (at, off, back, third, restored) =
        return_from_trap_handler-switch_to_trap_handler c t prepared h' from second in
      (
        t,
        h',
        back,
        >>=-ok _ _ first second,
        target,
        at,
        off,
        counter,
        epc' ∙ kept.pc_same,
        cause' ∙ cause,
        val' ∙ val,
        third,
        Restored-trans kept restored,
      )
