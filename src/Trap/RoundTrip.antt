-- ===== src/Trap/RoundTrip.antt =====
-- A trap handler is entered with its interrupts off, and the return from it leads back.
use rvvp.Base.{sym, refl, inl, inr, ◌∙◌, ℕ, false, ◌≡◌, ◌≢◌, ◌⊎◌, inl, inr, arith}
use mathlib.Core.Path.{subst}
use rvvp.Core.Privilege.{
  user_mode, supervisor_mode, privilege_level_to_pp, privilege_level_to_v, vpp_to_privilege_level,
}
use rvvp.Core.Result.{>>=-eq-ok, >>=-ok, Stop, ok_of_not_stop, ok, stop}
use rvvp.Trap.State.{Hart, Callees}
use rvvp.Trap.Stack.{
  swap_mtsp, swap_vstsp, swap_stsp, swap_htsp, swap_from_v, swap_from_user,
  stsp_swap_sp_on_mode_change, release_lr_sc_reservation,
}
use rvvp.Trap.Enter.{save_for_m, save_for_vs, save_for_s, save_for, switch_to_trap_handler}
use rvvp.Trap.Return.{
  restore_from_m, restore_from_vs, restore_from_s, restore_from, return_from_trap_handler,
  is_irq_globaly_enable_per_level,
}
use rvvp.Trap.Jump.{Virtual, IsLevel, TrapsTo, Jumped, entered, entered-Jumped}
use rvvp.Trap.Exchange.{Stack, exchange_twice}

module _ {M : Type 0} where
  -- What a trap and the return leave as it was.
  pub record Restored (h h' : Hart M) : Type 0 where
    pub prv_same : h'.prv ≡ h.prv
    pub pc_same : h'.pc ≡ h.pc
    pub sp_same : h'.sp ≡ h.sp
    pub mie_same : h'.mstatus.mie ≡ h.mstatus.mie
    pub sie_same : h'.mstatus.sie ≡ h.mstatus.sie
    pub vsie_same : h'.vsstatus.sie ≡ h.vsstatus.sie
    pub mtsp_same : h'.m.tsp ≡ h.m.tsp
    pub stsp_same : h'.s.tsp ≡ h.s.tsp
    pub vstsp_same : h'.vs.tsp ≡ h.vs.tsp
    pub htsp_same : h'.htsp ≡ h.htsp

  -- The others that matter to a return, the level left aside.
  abbrev Status : Hart M → Hart M → Type 0
  Status h h' =
      (h'.pc ≡ h.pc)
      × (h'.mstatus.mie ≡ h.mstatus.mie)
      × (h'.mstatus.sie ≡ h.mstatus.sie)
      × (h'.vsstatus.sie ≡ h.vsstatus.sie)

  swap_keeps :
      (t p : ℕ) (h x : Hart M)
      → stsp_swap_sp_on_mode_change t p h ≡ ok x
      → (x.prv ≡ h.prv) × Status h x
  unfolding stsp_swap_sp_on_mode_change swap_from_v swap_from_user swap_htsp swap_stsp swap_mtsp
      swap_vstsp
  swap_keeps t p h x e = ground arith

  -- What is saved for a handler, and restored from there.
  module _ (pp : ℕ) (h saved h' : Hart M) (jumped : Jumped saved h') where
    abbrev Back : Hart M → Type 0
    Back back = (back.prv ≡ pp) × Status h back × Stack h back

    saved_m : IsLevel pp → save_for_m pp h ≡ ok saved → Back (restore_from_m h')
    unfolding save_for_m restore_from_m privilege_level_to_pp privilege_level_to_v
        vpp_to_privilege_level
    saved_m level first = ground arith

    saved_s :
        (pp ≡ user_mode) ⊎ (pp ≡ supervisor_mode) ⊎ Virtual pp
        → save_for_s pp h ≡ ok saved
        → Back (restore_from_s h')
    unfolding save_for_s restore_from_s privilege_level_to_pp privilege_level_to_v
        vpp_to_privilege_level
    saved_s level first = ground arith

    saved_vs : Virtual pp → save_for_vs pp h ≡ ok saved → Back (restore_from_vs h')
    unfolding save_for_vs restore_from_vs privilege_level_to_pp privilege_level_to_v
        vpp_to_privilege_level
    saved_vs level first = ground arith

    saved_for :
        (t : ℕ)
        → TrapsTo t pp
        → save_for t pp h ≡ ok saved
        → (back : Hart M) × (restore_from t h' ≡ ok back) × Back back
    unfolding save_for restore_from
    saved_for t (inl (m, level)) first =
        (restore_from_m h', rw m refl, saved_m level (rw m at first))
    saved_for t (inr (inl (s, level))) first =
        (restore_from_s h', rw s refl, saved_s level (rw s at first))
    saved_for t (inr (inr (vs, level))) first =
        (restore_from_vs h', rw vs refl, saved_vs level (rw vs at first))

  -- The two exchanges, with what is saved and restored between them.
  around :
      (t : ℕ) (h x b back : Hart M) (called : M)
      → stsp_swap_sp_on_mode_change t h.prv
          (record h { prv = t; lr_sc_counter = 0; called = called })
        ≡ ok x
      → (b.prv ≡ h.prv) × Status x b × Stack x b
      → stsp_swap_sp_on_mode_change t b.prv b ≡ ok back
      → Restored h back
  around t h x b back called there (level, status, stack) again =
      let again' : stsp_swap_sp_on_mode_change t h.prv b ≡ ok back =
        subst (λ (p : ℕ). stsp_swap_sp_on_mode_change t p b ≡ ok back) level again in
      let start : Hart M = record h { prv = t; lr_sc_counter = 0; called = called } in
      let (same_prv, after) = swap_keeps t h.prv b back again' in
      let (prv_x, before) = swap_keeps t h.prv start x there in
      let stacks = exchange_twice t h.prv start x b back there stack again' in
      record {
        prv_same = same_prv ∙ level;
        pc_same = after.0 ∙ status.0 ∙ before.0;
        sp_same = stacks.0;
        mie_same = after.1 ∙ status.1 ∙ before.1;
        sie_same = after.2 ∙ status.2 ∙ before.2;
        vsie_same = after.3 ∙ status.3 ∙ before.3;
        mtsp_same = stacks.1;
        stsp_same = stacks.2;
        vstsp_same = stacks.3;
        htsp_same = stacks.4;
      }

  returned :
      (t : ℕ) (h b back : Hart M)
      → restore_from t h ≡ ok b
      → return_from_trap_handler t h ≡ ok back
      → stsp_swap_sp_on_mode_change t b.prv b ≡ ok back
  unfolding return_from_trap_handler
  returned t h b back restored second = sym (>>=-ok (restore_from t h) _ restored refl) ∙ second

  returns :
      (c : Callees M) (t : ℕ) (h saved h' back : Hart M)
      → Jumped saved h'
      → TrapsTo t h.prv
      → entered c t h ≡ ok saved
      → return_from_trap_handler t h' ≡ ok back
      → Restored h back
  unfolding entered release_lr_sc_reservation
  returns c t h saved h' back jumped traps first second =
      let (x, there, save) =
        >>=-eq-ok
          (stsp_swap_sp_on_mode_change t h.prv (record (release_lr_sc_reservation c h) { prv = t }))
          (save_for t h.prv) first in
      let (b, restored, kept) = saved_for h.prv x saved h' jumped t traps save in
      around t h x b back (c.atomic_unlock h.called) there kept
        (returned t h' b back restored second)

  -- The return from a handler's mode stops nowhere.
  pub return_never_stops :
      (t : ℕ) (h : Hart M) {prv : ℕ}
      → TrapsTo t prv
      → (why : Stop) → return_from_trap_handler t h ≢ stop why
  unfolding return_from_trap_handler restore_from stsp_swap_sp_on_mode_change
  return_never_stops t h traps why = ground arith

  pub Restored-trans : {h h' h'' : Hart M} → Restored h h' → Restored h' h'' → Restored h h''
  Restored-trans r s = record {
    prv_same = s.prv_same ∙ r.prv_same;
    pc_same = s.pc_same ∙ r.pc_same;
    sp_same = s.sp_same ∙ r.sp_same;
    mie_same = s.mie_same ∙ r.mie_same;
    sie_same = s.sie_same ∙ r.sie_same;
    vsie_same = s.vsie_same ∙ r.vsie_same;
    mtsp_same = s.mtsp_same ∙ r.mtsp_same;
    stsp_same = s.stsp_same ∙ r.stsp_same;
    vstsp_same = s.vstsp_same ∙ r.vstsp_same;
    htsp_same = s.htsp_same ∙ r.htsp_same;
  }

  -- In the handler.
  entered-InHandler :
      (c : Callees M) (t : ℕ) (h saved h' : Hart M)
      → Jumped saved h'
      → TrapsTo t h.prv
      → entered c t h ≡ ok saved
      → (h'.prv ≡ t) × (is_irq_globaly_enable_per_level t h' ≡ ok false)
  unfolding entered release_lr_sc_reservation stsp_swap_sp_on_mode_change save_for save_for_m
      save_for_s save_for_vs is_irq_globaly_enable_per_level swap_from_v swap_from_user swap_htsp
      swap_stsp swap_mtsp swap_vstsp
  entered-InHandler c t h saved h' jumped traps first = ground arith

  -- Where a trap is taken to a mode that may handle it and the entry of the handler returns, the hart
  -- is in that mode with its interrupts off, and the return from the handler at once returns too. Behind
  -- both, the privilege level, the program counter, the stack pointer, the interrupt enable bits and the
  -- registers for exchanged stack pointers are as they were.
  pub return_from_trap_handler-switch_to_trap_handler :
      (c : Callees M) (t : ℕ) (h h' : Hart M)
      → TrapsTo t h.prv
      → switch_to_trap_handler c t h ≡ ok h'
      → (h'.prv ≡ t)
        × (is_irq_globaly_enable_per_level t h' ≡ ok false)
        × (back : Hart M) × (return_from_trap_handler t h' ≡ ok back)
        × Restored h back
  return_from_trap_handler-switch_to_trap_handler c t h h' traps e =
      let (saved, first, jumped) = entered-Jumped c t h h' e in
      let (at, off) = entered-InHandler c t h saved h' jumped traps first in
      let (back, second) =
        ok_of_not_stop (return_from_trap_handler t h') (return_never_stops t h' traps) in
      (at, off, back, second, returns c t h saved h' back jumped traps first second)
