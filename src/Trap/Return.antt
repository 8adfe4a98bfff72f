-- ===== src/Trap/Return.antt =====
-- iss.cpp: `return_from_trap_handler`, and the instructions that call it.
use rvvp.Base.{◌||◌, ℕ, Bool, true, false, not, ◌&&◌, ◌==◌, if◌then◌else◌}
use rvvp.Core.Privilege.{
  user_mode, supervisor_mode, machine_mode, virtual_user_mode, virtual_supervisor_mode,
  vpp_to_privilege_level,
}
use rvvp.Core.Result.{Result, ok, stop, runtime_error, raise_trap, ◌>>=◌}
use rvvp.Trap.State.{Hart}
use rvvp.Trap.Stack.{stsp_swap_sp_on_mode_change}

module _ {M : Type 0} where
  -- `is_irq_globaly_enable_per_level`
  unfoldable pub is_irq_globaly_enable_per_level : ℕ → Hart M → Result Bool
  is_irq_globaly_enable_per_level target_mode h =
      if target_mode == machine_mode
      then ok (not (h.prv == machine_mode) || (h.prv == machine_mode && h.mstatus.mie))
      else if target_mode == supervisor_mode
      then ok (
          not (h.prv == machine_mode) && not (h.prv == supervisor_mode)
          || (h.prv == supervisor_mode && h.mstatus.sie))
      else if target_mode == virtual_supervisor_mode
      then ok (h.prv == virtual_user_mode || (h.prv == virtual_supervisor_mode && h.vsstatus.sie))
      else stop runtime_error

  -- The cases of `return_from_trap_handler`. `has_user_mode_extension` is true in the
  -- source.
  unfoldable pub restore_from_m : Hart M → Hart M
  unfolding vpp_to_privilege_level
  restore_from_m h =
      let prv = vpp_to_privilege_level h.mpv h.mstatus.mpp in
      record h {
        prv = prv;
        mstatus = record h.mstatus {
          mie = h.mstatus.mpie;
          mpie = true;
          mprv = if prv == machine_mode then h.mstatus.mprv else false;
          mpp = user_mode;
        };
        pc = h.m.epc;
        mpv = 0;
      }

  unfoldable pub restore_from_vs : Hart M → Hart M
  unfolding vpp_to_privilege_level
  restore_from_vs h = record h {
    prv = vpp_to_privilege_level 1 h.vsstatus.spp;
    vsstatus = record { sie = h.vsstatus.spie; spie = true; spp = user_mode };
    pc = h.vs.epc;
    mstatus = record h.mstatus { mprv = false };
  }

  unfoldable pub restore_from_s : Hart M → Hart M
  unfolding vpp_to_privilege_level
  restore_from_s h = record h {
    prv = vpp_to_privilege_level h.hstatus.spv h.mstatus.spp;
    mstatus = record h.mstatus { sie = h.mstatus.spie; spie = true; mprv = false; spp = user_mode };
    pc = h.s.epc;
    hstatus = record h.hstatus { spv = 0 };
  }

  unfoldable pub restore_from : ℕ → Hart M → Result (Hart M)
  unfolding restore_from_m restore_from_vs restore_from_s
  restore_from return_mode h =
      if return_mode == machine_mode
      then ok (restore_from_m h)
      else if return_mode == virtual_supervisor_mode
      then ok (restore_from_vs h)
      else if return_mode == supervisor_mode
      then ok (restore_from_s h)
      else stop runtime_error

  unfoldable pub return_from_trap_handler : ℕ → Hart M → Result (Hart M)
  unfolding restore_from stsp_swap_sp_on_mode_change
  return_from_trap_handler return_mode h =
      restore_from return_mode h >>= λ back. stsp_swap_sp_on_mode_change return_mode back.prv back

  -- `exec_step`, SRET; `misa` has the supervisor mode extension when `has_s` is set.
  unfoldable pub sret : Bool → Hart M → Result (Hart M)
  unfolding return_from_trap_handler
  sret has_s h =
      if not has_s
      then raise_trap 2 h.instr
      else if h.prv == supervisor_mode && h.mstatus.tsr
      then raise_trap 2 h.instr
      else if h.prv == virtual_supervisor_mode && h.hstatus.vtsr
      then raise_trap 22 h.instr
      else if h.prv == virtual_supervisor_mode
      then return_from_trap_handler virtual_supervisor_mode h
      else if h.prv == supervisor_mode
      then return_from_trap_handler supervisor_mode h
      else if h.prv == machine_mode
      then return_from_trap_handler supervisor_mode h
      else stop runtime_error

  -- `exec_step`, MRET
  unfoldable pub mret : Hart M → Result (Hart M)
  unfolding return_from_trap_handler
  mret h =
      if not (h.prv == machine_mode)
      then raise_trap 2 h.instr
      else return_from_trap_handler machine_mode h
