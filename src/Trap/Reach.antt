-- ===== src/Trap/Reach.antt =====
-- Traps, interrupts and returns as steps: the levels that a hart can come to.
use rvvp.Base.{◌<◌, ℕ, Bool, ◌≡◌, ◌≢◌, arith}
use rvvp.Core.Privilege.{privilege_level_to_pp, privilege_level_to_v}
use rvvp.Core.Result.{SimulationTrap, ok, >>=-eq-ok}
use rvvp.Trap.State.{Hart, Callees}
use rvvp.Trap.Stack.{
  swap_mtsp, swap_vstsp, swap_stsp, swap_htsp, swap_from_v, swap_from_user,
  stsp_swap_sp_on_mode_change, release_lr_sc_reservation,
}
use rvvp.Trap.Prepare.{prepare_trap}
use rvvp.Trap.Enter.{switch_to_trap_handler, save_for, save_for_m, save_for_s, save_for_vs}
use rvvp.Trap.Return.{sret, mret}
use rvvp.Trap.Step.{PendingInterrupts, none_mode, take_trap, compute_pending_interrupt}
use rvvp.Trap.Jump.{IsLevel, TrapsTo, Jumped, entered, entered-Jumped}
use rvvp.Trap.Returns.{HoldsLevels, sret-back, mret-back}
use rvvp.Trap.Interrupts.{compute_pending_interrupt-TrapsTo}
use rvvp.Trap.Delegation.{prepare_trap-IsTarget, prepare_trap-levels}

module _ {M : Type 0} (c : Callees M) where
  -- One step of a hart, as far as its level goes. `other` stands for the instructions that are no
  -- returns: they keep the level, and write to the fields for levels only what exists.
  pub data Step : Hart M → Hart M → Type 0 where
    other : {h h' : Hart M} → h'.prv ≡ h.prv → HoldsLevels h' → Step h h'
    trap :
        {h h' : Hart M} (e : SimulationTrap) → e.reason < 32 → take_trap c e h ≡ ok h' → Step h h'
    interrupt :
        {h h' : Hart M} (p : PendingInterrupts) (t : ℕ)
        → compute_pending_interrupt p h ≡ ok t
        → t ≢ none_mode
        → switch_to_trap_handler c t h ≡ ok h'
        → Step h h'
    supervisor_return : {h h' : Hart M} (has_s : Bool) → sret has_s h ≡ ok h' → Step h h'
    machine_return : {h h' : Hart M} → mret h ≡ ok h' → Step h h'

  pub data Steps : Hart M → Hart M → Type 0 where
    done : {h : Hart M} → Steps h h
    next : {h h' h'' : Hart M} → Step h h' → Steps h' h'' → Steps h h''

  abbrev pub IsValid : Hart M → Type 0
  IsValid h = IsLevel h.prv × HoldsLevels h

  entered-HoldsLevels :
      (t : ℕ) (h saved h' : Hart M)
      → Jumped saved h'
      → TrapsTo t h.prv
      → HoldsLevels h
      → entered c t h ≡ ok saved
      → IsValid h'
  unfolding entered release_lr_sc_reservation stsp_swap_sp_on_mode_change save_for save_for_m
      save_for_s save_for_vs swap_from_v swap_from_user swap_htsp swap_stsp swap_mtsp swap_vstsp
      privilege_level_to_pp privilege_level_to_v
  entered-HoldsLevels t h saved h' jumped traps fields first = ground arith

  switch-IsValid :
      (t : ℕ) (h h' : Hart M)
      → TrapsTo t h.prv
      → HoldsLevels h
      → switch_to_trap_handler c t h ≡ ok h'
      → IsValid h'
  switch-IsValid t h h' traps fields e =
      let (saved, first, jumped) = entered-Jumped c t h h' e in
      entered-HoldsLevels t h saved h' jumped traps fields first

  Step-IsValid : {h h' : Hart M} → Step h h' → IsValid h → IsValid h'
  unfolding take_trap
  Step-IsValid {h = h} (other same fields) valid = ground (arith, same, fields)
  Step-IsValid {h = h} {h' = h'} (trap e small taken) (level, fields) =
      let ((t, prepared), first, rest) = >>=-eq-ok (prepare_trap e h) _ taken in
      let (target, traps) = prepare_trap-IsTarget e h prepared t small level first in
      let kept = prepare_trap-levels e h prepared t first in
      switch-IsValid t prepared h' (ground (arith, kept, traps)) (ground (arith, kept, fields)) rest
  Step-IsValid {h = h} {h' = h'} (interrupt p t chosen some_mode taken) (level, fields) =
      let (t', e, m, s, vs, traps) = compute_pending_interrupt-TrapsTo p h level in
      switch-IsValid t h h' (ground (arith, chosen, e, traps, some_mode)) fields taken
  Step-IsValid {h = h} {h' = h'} (supervisor_return has_s e) (level, fields) =
      let (fields', traps) = sret-back has_s h h' level fields e in (ground (arith, traps), fields')
  Step-IsValid {h = h} {h' = h'} (machine_return e) (level, fields) =
      let (fields', traps) = mret-back h h' fields e in (ground (arith, traps), fields')

  -- Whatever sequence of traps, interrupts and returns a hart goes through, from a level that exists and
  -- with levels that exist in the fields of mstatus, hstatus and vsstatus, it stays at levels that exist,
  -- and the fields hold such levels.
  pub Steps-IsValid : {h h' : Hart M} → Steps h h' → IsValid h → IsValid h'
  Steps-IsValid done valid = valid
  Steps-IsValid (next step steps) valid = Steps-IsValid steps (Step-IsValid step valid)
