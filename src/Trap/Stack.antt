-- ===== src/Trap/Stack.antt =====
-- iss.cpp: the exchange of the stack pointer on a change of the privilege level, and the end of a
-- load reservation.
use rvvp.Base.{ℕ, not, ◌&&◌, ◌==◌, ◌-◌, if◌then◌else◌}
use rvvp.Base.Bits.{truth}
use rvvp.Core.Privilege.{
  supervisor_mode, machine_mode, virtual_supervisor_mode, privilege_level_to_v,
}
use rvvp.Core.Result.{Result, ok, stop, assertion}
use rvvp.Trap.State.{Hart, Callees}

module _ {M : Type 0} where
  -- `swap_stack_pointer`, on each of the registers it is called with.
  unfoldable pub swap_mtsp : Hart M → Hart M
  swap_mtsp h = record h { sp = h.m.tsp; m = record h.m { tsp = h.sp } }

  unfoldable pub swap_vstsp : Hart M → Hart M
  swap_vstsp h = record h { sp = h.vs.tsp; vs = record h.vs { tsp = h.sp } }

  unfoldable pub swap_stsp : Hart M → Hart M
  swap_stsp h = record h { sp = h.s.tsp; s = record h.s { tsp = h.sp } }

  unfoldable pub swap_htsp : Hart M → Hart M
  swap_htsp h = record h { sp = h.htsp; htsp = h.sp }

  -- The two tests of the supervisor's case, one behind the other.
  unfoldable pub swap_from_v : ℕ → Hart M → Hart M
  unfolding swap_htsp
  swap_from_v desc_mode h =
      if h.htsp_enabled && truth (privilege_level_to_v desc_mode) then swap_htsp h else h

  unfoldable pub swap_from_user : ℕ → Hart M → Hart M
  unfolding swap_stsp
  swap_from_user desc_mode h =
      if h.stsp_enabled
        && (not (truth (privilege_level_to_v desc_mode)) && not (desc_mode == supervisor_mode))
      then swap_stsp h
      else h

  unfoldable pub stsp_swap_sp_on_mode_change : ℕ → ℕ → Hart M → Result (Hart M)
  unfolding swap_mtsp swap_vstsp swap_from_v swap_from_user
  stsp_swap_sp_on_mode_change base_mode desc_mode h =
      if base_mode == machine_mode
      then ok (if h.mtsp_enabled && not (desc_mode == machine_mode) then swap_mtsp h else h)
      else if base_mode == virtual_supervisor_mode
      then ok (
          if h.vgtsp_enabled && not (desc_mode == virtual_supervisor_mode) then swap_vstsp h else h)
      else if base_mode == supervisor_mode
      then ok (swap_from_user desc_mode (swap_from_v desc_mode h))
      else stop assertion

  unfoldable pub release_lr_sc_reservation : Callees M → Hart M → Hart M
  release_lr_sc_reservation c h = record h { lr_sc_counter = 0; called = c.atomic_unlock h.called }

  -- The part of `performance_and_sync_update` that is about the reservation.
  unfoldable pub performance_and_sync_update : Callees M → Hart M → Hart M
  unfolding release_lr_sc_reservation
  performance_and_sync_update c h =
      let left = record h { lr_sc_counter = h.lr_sc_counter - 1 } in
      if h.lr_sc_counter == 0
      then h
      else if left.lr_sc_counter == 0
      then release_lr_sc_reservation c left
      else left
