-- ===== src/Trap/Enter.antt =====
-- iss.cpp: `switch_to_trap_handler`, the entry of a trap handler.
use rvvp.Base.{ℕ, true, false, not, ◌&&◌, ◌||◌, ◌==◌, ◌+◌, ◌*◌, ◌%◌, ◌^◌, if◌then◌else◌}
use rvvp.Base.Bits.{truth}
use rvvp.Core.Privilege.{
  user_mode, supervisor_mode, machine_mode, virtual_user_mode, virtual_supervisor_mode,
  privilege_level_to_pp, privilege_level_to_v, is_irq_capable_level,
}
use rvvp.Core.Result.{Result, ok, stop, runtime_error, check, ◌>>=◌, ◌>>◌}
use rvvp.Trap.State.{Callees, Hart, vectored, snps_nested_vectored, get_base_address, registers}
use rvvp.Trap.Stack.{stsp_swap_sp_on_mode_change, release_lr_sc_reservation}

module _ {M : Type 0} where
  -- `set_pending_ivt`: the program counter is loaded at the start of the next step.
  unfoldable pub set_pending_ivt : ℕ → Hart M → Hart M
  set_pending_ivt address h = record h { ivt_pending = true; ivt_entry_address = address }

  -- The test of `verify_m_trap_vector`; otherwise it at most warns.
  unfoldable pub verify_m_trap_vector : ℕ → Hart M → Result (Unit {0})
  verify_m_trap_vector mtvec_base_addr h =
      if mtvec_base_addr == 0 && h.error_on_zero_traphandler then stop runtime_error else ok tt

  unfoldable pub vector_to_line : Callees M → ℕ → ℕ → Hart M → Result (Hart M)
  unfolding set_pending_ivt
  vector_to_line c base_mode base h = c.nv_mode_get_ivt_line_num base_mode h.called >>= λ line.
      ok (set_pending_ivt ((base + 4 * line) % 2 ^ 32) h)

  -- `jump_to_trap_vector` up to the call of `notify_irq_taken`.
  unfoldable pub vector_to : Callees M → ℕ → Hart M → Result (Hart M)
  unfolding set_pending_ivt vector_to_line
  vector_to c base_mode h =
      let xtvec = (registers base_mode h).tvec in
      let cause = (registers base_mode h).cause in
      let base = get_base_address xtvec in
      if cause.interrupt && xtvec.mode == vectored
      then ok (record h { pc = (base + 4 * cause.exception_code) % 2 ^ 32 })
      else if cause.interrupt && xtvec.mode == snps_nested_vectored
      then vector_to_line c base_mode base h
      else if not cause.interrupt && xtvec.mode == snps_nested_vectored
      then ok (set_pending_ivt base h)
      else ok (record h { pc = base })

  unfoldable pub irq_taken : Callees M → ℕ → Hart M → Result (Hart M)
  irq_taken c base_mode h =
      c.notify_irq_taken base_mode h.called >>= λ called. ok (record h { called = called })

  unfoldable pub jump_to_trap_vector : Callees M → ℕ → Hart M → Result (Hart M)
  unfolding verify_m_trap_vector vector_to irq_taken is_irq_capable_level
  jump_to_trap_vector c base_mode h =
      check (is_irq_capable_level base_mode)
      >> ((if base_mode == machine_mode
            then verify_m_trap_vector (get_base_address h.m.tvec) h
            else ok tt)
          >> (vector_to c base_mode h >>= λ jumped.
              if (registers base_mode h).cause.interrupt
              then irq_taken c base_mode jumped
              else ok jumped))

  -- The switch of `switch_to_trap_handler`; `pp` is the level that is left.
  unfoldable pub save_for_m : ℕ → Hart M → Result (Hart M)
  unfolding privilege_level_to_pp privilege_level_to_v
  save_for_m pp h = ok (record h {
    m = record h.m { epc = h.pc };
    mstatus = record h.mstatus {
      mpie = h.mstatus.mie;
      mie = false;
      mpp = privilege_level_to_pp pp % 4;
    };
    mpv = privilege_level_to_v pp % 2;
  })

  unfoldable pub save_for_vs : ℕ → Hart M → Result (Hart M)
  unfolding privilege_level_to_pp
  save_for_vs pp h =
      check (pp == virtual_supervisor_mode || pp == virtual_user_mode)
      >> ok (record h {
        vs = record h.vs { epc = h.pc };
        vsstatus = record {
          spie = h.vsstatus.sie;
          sie = false;
          spp = privilege_level_to_pp pp % 2;
        };
      })

  unfoldable pub save_for_s : ℕ → Hart M → Result (Hart M)
  unfolding privilege_level_to_pp privilege_level_to_v
  save_for_s pp h =
      check (
        pp == supervisor_mode
        || pp == virtual_supervisor_mode
        || pp == user_mode
        || pp == virtual_user_mode)
      >> ok (record h {
        s = record h.s { epc = h.pc };
        mstatus = record h.mstatus {
          spie = h.mstatus.sie;
          sie = false;
          spp = privilege_level_to_pp pp % 2;
        };
        hstatus = record h.hstatus {
          spv = privilege_level_to_v pp % 2;
          spvp =
              if truth (privilege_level_to_v pp)
              then privilege_level_to_pp pp % 2
              else h.hstatus.spvp;
        };
      })

  unfoldable pub save_for : ℕ → ℕ → Hart M → Result (Hart M)
  unfolding save_for_m save_for_vs save_for_s
  save_for target_mode pp h =
      if target_mode == machine_mode
      then save_for_m pp h
      else if target_mode == virtual_supervisor_mode
      then save_for_vs pp h
      else if target_mode == supervisor_mode
      then save_for_s pp h
      else stop runtime_error

  unfoldable pub switch_to_trap_handler : Callees M → ℕ → Hart M → Result (Hart M)
  unfolding release_lr_sc_reservation stsp_swap_sp_on_mode_change save_for jump_to_trap_vector
  switch_to_trap_handler c target_mode h =
      stsp_swap_sp_on_mode_change target_mode h.prv
        (record (release_lr_sc_reservation c h) { prv = target_mode })
      >>= λ swapped.
          save_for target_mode h.prv swapped >>= λ saved. jump_to_trap_vector c target_mode saved
