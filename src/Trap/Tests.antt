-- ===== src/Trap/Tests.antt =====
-- Concrete harts for the theorems on traps.
use rvvp.Base.{Bool, ℕ, ◌≡◌, ◌≢◌, ◌⊎◌, ◌↔◌, inl, inr, refl, true, false, List, [], ◌∷◌, arith}
use rvvp.Core.Privilege.{
  privilege_level_to_v, supervisor_mode, machine_mode, virtual_supervisor_mode,
}
use rvvp.Core.Result.{SimulationTrap, stop, raise_trap, runtime_error, ok}
use rvvp.Bus.Lock.{BusLock, unlock, is_locked, Call, locks, unlocks}
use rvvp.Trap.State.{Hart, Callees, Level, registers}
use rvvp.Trap.Enter.{switch_to_trap_handler}
use rvvp.Trap.Return.{return_from_trap_handler, is_irq_globaly_enable_per_level, sret, mret}
use rvvp.Trap.Step.{PendingInterrupts, none_mode, take_trap, compute_pending_interrupt}
use rvvp.Trap.Jump.{IsLevel, TrapsTo}
use rvvp.Trap.RoundTrip.{Restored, return_from_trap_handler-switch_to_trap_handler}
use rvvp.Trap.Delegation.{IsTarget, take_trap-IsTarget}
use rvvp.Trap.Returns.{HoldsLevels, sret-TrapsTo, mret-IsLevel}
use rvvp.Trap.Interrupts.{DueM, DueS, DueVs, compute_pending_interrupt-TrapsTo}
use rvvp.Trap.Reach.{Steps, IsValid, interrupt, done, next, supervisor_return, Steps-IsValid}
use rvvp.Trap.Reservation.{rounds, rounds-is_locked}

abbrev callees : Callees BusLock
callees = record {
  atomic_unlock = λ s. unlock 0 s;
  load_word = λ a s. (ok 0x1000, s);
  nv_mode_get_ivt_line_num = λ t s. ok 9;
  notify_irq_taken = λ t s. ok s;
}

abbrev level_at : ℕ → Level
level_at base = record {
  epc = 0;
  cause = record { interrupt = false; exception_code = 0 };
  tval = 0;
  tval2 = 0;
  tinst = 0;
  tvec = record { mode = 1; base = base };
  tsp = 0x8000;
}

-- A guest's user program, whose page faults are delegated to its supervisor.
abbrev guest : Hart BusLock
guest = record {
  prv = 4;
  pc = 0x104;
  last_pc = 0x100;
  sp = 0x7000;
  instr = 0x00052503;
  mstatus = record {
    sie = true;
    mie = true;
    spie = false;
    mpie = false;
    spp = 0;
    mpp = 0;
    mprv = false;
    tsr = false;
  };
  mpv = 0;
  vsstatus = record { sie = true; spie = false; spp = 0 };
  hstatus = record { spv = 0; spvp = 0; vtsr = false };
  medeleg = 0xb000;
  hedeleg = 0xa000;
  mtsp_enabled = true;
  vgtsp_enabled = true;
  htsp_enabled = true;
  stsp_enabled = true;
  htsp = 0x9000;
  m = level_at 0x400;
  s = level_at 0x500;
  vs = level_at 0x600;
  lr_sc_counter = 17;
  ivt_pending = false;
  ivt_entry_address = 0;
  error_on_zero_traphandler = true;
  called = record { locked = true; owner = 0 };
}

abbrev page_fault : SimulationTrap
page_fault = record { reason = 13; mtval = 0x4000; mtval2_htval = 0 }

abbrev in_handler : Hart BusLock
in_handler = record guest {
  prv = 1;
  pc = 0x1400;
  sp = 0x9000;
  mstatus = record {
    sie = false;
    mie = true;
    spie = true;
    mpie = false;
    spp = 0;
    mpp = 0;
    mprv = false;
    tsr = false;
  };
  hstatus = record { spv = 1; spvp = 0; vtsr = false };
  htsp = 0x7000;
  s = record (level_at 0x500) { epc = 0x104 };
  lr_sc_counter = 0;
  called = record { locked = false; owner = 0 };
}

entered_supervisor : switch_to_trap_handler callees supervisor_mode guest ≡ ok in_handler
unfolding switch_to_trap_handler unlock
entered_supervisor = refl

return_from_trap_handler-switch_to_trap_handler_example :
    (in_handler.prv ≡ supervisor_mode)
    × (is_irq_globaly_enable_per_level supervisor_mode in_handler ≡ ok false)
    × (back : Hart BusLock) × (return_from_trap_handler supervisor_mode in_handler ≡ ok back)
    × Restored guest back
return_from_trap_handler-switch_to_trap_handler_example =
    return_from_trap_handler-switch_to_trap_handler callees supervisor_mode guest in_handler
      (inr (inl (refl, inr (inr (inl refl))))) entered_supervisor

take_trap-IsTarget_example :
    (t : ℕ) × (h' : Hart BusLock) × (back : Hart BusLock) × (take_trap callees page_fault guest
      ≡ ok h')
    × IsTarget page_fault guest t
    × (h'.prv ≡ t)
    × (is_irq_globaly_enable_per_level t h' ≡ ok false)
    × (h'.lr_sc_counter ≡ 0)
    × ((registers t h').epc ≡ 0x100)
    × ((registers t h').cause ≡ record { interrupt = false; exception_code = 13 })
    × ((registers t h').tval ≡ 0x4000)
    × (return_from_trap_handler t h' ≡ ok back)
    × Restored (record guest { pc = 0x100 }) back
take_trap-IsTarget_example =
    take_trap-IsTarget callees page_fault guest (omega arith) (inr (inr (inr (inl refl))))
      (inl (omega arith))

compute_pending_interrupt-TrapsTo_example :
    let p : PendingInterrupts = record { m_pending = 0; s_hs_pending = 0x20; vs_pending = 4 } in
    (t : ℕ) × (compute_pending_interrupt p guest ≡ ok t)
    × ((t ≡ machine_mode) ↔ DueM p guest)
    × ((t ≡ supervisor_mode) ↔ ((¬ DueM p guest) × DueS p guest))
    × ((t ≡ virtual_supervisor_mode) ↔ ((¬ DueM p guest) × (¬ DueS p guest) × DueVs p guest))
    × ((t ≡ none_mode) ⊎ TrapsTo t 4)
compute_pending_interrupt-TrapsTo_example =
    compute_pending_interrupt-TrapsTo
      (record { m_pending = 0; s_hs_pending = 0x20; vs_pending = 4 }) guest
      (inr (inr (inr (inl refl))))

guest-HoldsLevels : HoldsLevels guest
guest-HoldsLevels = (omega arith, inl refl, omega arith, omega arith, omega arith)

sret-TrapsTo_example :
    ((sret true guest ≡ raise_trap 2 0x00052503)
      ↔ ((◌≡◌ true false) ⊎ ((◌≡◌ {A = ℕ} 4 1) × (◌≡◌ false true))))
    × ((sret true guest ≡ raise_trap 22 0x00052503)
        ↔ ((◌≡◌ true true) × (◌≡◌ {A = ℕ} 4 5) × (◌≡◌ false true)))
    × ((sret true guest ≡ stop runtime_error)
        ↔ ((◌≡◌ true true) × ((◌≡◌ {A = ℕ} 4 0) ⊎ (◌≡◌ {A = ℕ} 4 4))))
    × (((back : Hart BusLock) × (sret true guest ≡ ok back)) ↔ (
        (◌≡◌ true true)
        × ((◌≡◌ {A = ℕ} 4 3)
            ⊎ (((◌≡◌ {A = ℕ} 4 1) × (◌≡◌ false false)) ⊎ ((◌≡◌ {A = ℕ} 4 5) × (◌≡◌ false false))))))
    × ((back : Hart BusLock) → sret true guest ≡ ok back → HoldsLevels back × TrapsTo 4 back.prv)
sret-TrapsTo_example = sret-TrapsTo true guest (inr (inr (inr (inl refl)))) guest-HoldsLevels

abbrev reserved : Hart BusLock
reserved = record guest {
  prv = 3;
  mstatus = record {
    sie = true;
    mie = true;
    spie = false;
    mpie = false;
    spp = 0;
    mpp = 2;
    mprv = false;
    tsr = false;
  };
}

mret-IsLevel_example :
    ((reserved.prv ≢ machine_mode) → mret reserved ≡ raise_trap 2 0x00052503)
    × ((reserved.prv ≡ machine_mode)
        → (back : Hart BusLock) × (mret reserved ≡ ok back)
          × (IsLevel back.prv ↔ (reserved.mstatus.mpp ≢ 2)))
mret-IsLevel_example = mret-IsLevel reserved (omega arith, omega arith)

-- Back from the supervisor's handler.
abbrev resumed : Hart BusLock
resumed = record guest {
  mstatus = record {
    sie = true;
    mie = true;
    spie = true;
    mpie = false;
    spp = 0;
    mpp = 0;
    mprv = false;
    tsr = false;
  };
  s = record (level_at 0x500) { epc = 0x104 };
  lr_sc_counter = 0;
  called = record { locked = false; owner = 0 };
}

abbrev external : PendingInterrupts
external = record { m_pending = 0; s_hs_pending = 0x200; vs_pending = 0 }

there_and_back : Steps callees guest resumed
unfolding compute_pending_interrupt sret privilege_level_to_v
there_and_back =
    next (interrupt external supervisor_mode refl (λ h. absurd (omega arith)) entered_supervisor)
      (next (supervisor_return true refl) done)

Steps-IsValid_example : IsValid callees resumed
Steps-IsValid_example =
    Steps-IsValid callees there_and_back (inr (inr (inr (inl refl))), guest-HoldsLevels)

-- Three instructions, of which the second writes memory.
abbrev others : List (List Call × Bool)
others = (locks 1 ∷ [], false) ∷ ([], true) ∷ (locks 2 ∷ unlocks 1 ∷ [], false) ∷ []

held : is_locked 0 guest.called ≡ true
unfolding is_locked
held = refl

rounds-is_locked_example :
    (is_locked 0 (rounds callees others guest).called ≡ false)
    × ((rounds callees others guest).lr_sc_counter ≡ 14)
rounds-is_locked_example =
    rounds-is_locked 0 callees (λ s. refl) others guest
      (
        ((λ h. absurd (omega arith)), tt),
        (tt, (((λ h. absurd (omega arith)), ((λ h. absurd (omega arith)), tt)), tt)),
      )
      (λ h. absurd (omega arith)) held
