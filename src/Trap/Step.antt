-- ===== src/Trap/Step.antt =====
-- iss.cpp: the parts of `run_step` that are about traps.
use rvvp.Base.{ℕ, false, ◌&&◌, if◌then◌else◌}
use rvvp.Base.Bits.{truth}
use rvvp.Core.Privilege.{supervisor_mode, machine_mode, virtual_supervisor_mode}
use rvvp.Core.Result.{Result, ok, stop, SimulationTrap, ◌>>=◌}
use rvvp.Trap.State.{Hart, Callees}
use rvvp.Trap.Prepare.{prepare_trap}
use rvvp.Trap.Enter.{switch_to_trap_handler}
use rvvp.Trap.Return.{is_irq_globaly_enable_per_level}

abbrev pub none_mode : ℕ
none_mode = 0xffffffff

-- `PendingInterrupts`: the bits of the pending interrupts, by the level that takes them.
pub record PendingInterrupts : Type 0 where
  pub m_pending : ℕ
  pub s_hs_pending : ℕ
  pub vs_pending : ℕ

module _ {M : Type 0} where
  -- `run_step`, the handler of a `SimulationTrap`.
  unfoldable pub take_trap : Callees M → SimulationTrap → Hart M → Result (Hart M)
  unfolding prepare_trap switch_to_trap_handler
  take_trap c e h =
      prepare_trap e h >>= λ (target_mode, prepared). switch_to_trap_handler c target_mode prepared

  set_pc : Result ℕ → Hart M → Hart M
  set_pc (ok word) h = record h { pc = word }
  set_pc (stop why) h = h

  -- `process_pending_ivt`: a load that throws keeps the change that was made before.
  unfoldable pub process_pending_ivt : Callees M → Hart M → Result (Unit {0}) × Hart M
  unfolding set_pc
  process_pending_ivt c h =
      let (loaded, called) = c.load_word h.ivt_entry_address h.called in
      let cleared : Hart M = record h { ivt_pending = false; called = called } in
      if h.ivt_pending then (loaded >>= λ word. ok tt, set_pc loaded cleared) else (ok tt, h)

  -- The tests of `compute_pending_interrupt` look for the enable bit only behind a pending interrupt;
  -- the levels are such that the look never throws.
  unfoldable pub compute_pending_interrupt : PendingInterrupts → Hart M → Result ℕ
  unfolding is_irq_globaly_enable_per_level
  compute_pending_interrupt irqs_pend h = is_irq_globaly_enable_per_level machine_mode h >>= λ m.
      is_irq_globaly_enable_per_level supervisor_mode h >>= λ s.
      is_irq_globaly_enable_per_level virtual_supervisor_mode h >>= λ vs. ok (
        if truth irqs_pend.m_pending && m
        then machine_mode
        else if truth irqs_pend.s_hs_pending && s
        then supervisor_mode
        else if truth irqs_pend.vs_pending && vs
        then virtual_supervisor_mode
        else none_mode)
