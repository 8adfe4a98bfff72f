-- ===== src/Trap/Returns.antt =====
-- The instructions that return from trap handlers, at every level.
use rvvp.Base.{
  ◌*◌, ◌+◌, every, every_sound, ==_iff, ℕ, Bool, true, false, ◌<◌, ◌≡◌, ◌≢◌, ◌⊎◌, ◌↔◌, inl, inr,
  refl, arith, ◌==◌, if◌then◌else◌,
}
use rvvp.Core.Privilege.{
  user_mode, supervisor_mode, machine_mode, virtual_user_mode, virtual_supervisor_mode,
  vpp_to_privilege_level,
}
use rvvp.Core.Result.{ok, stop, ok_of_not_stop, runtime_error, raise_trap}
use rvvp.Trap.State.{Hart}
use rvvp.Trap.Stack.{
  swap_mtsp, swap_vstsp, swap_stsp, swap_htsp, swap_from_v, swap_from_user,
  stsp_swap_sp_on_mode_change,
}
use rvvp.Trap.Return.{
  restore_from, restore_from_m, restore_from_s, restore_from_vs, return_from_trap_handler, sret,
  mret,
}
use rvvp.Trap.RoundTrip.{return_never_stops}
use rvvp.Trap.Jump.{IsLevel, TrapsTo}

vpp_table :
    (v pp : ℕ) → v < 2 → pp < 4 → vpp_to_privilege_level v pp ≡ (if pp == 3 then 3 else v * 4 + pp)
unfolding vpp_to_privilege_level every
vpp_table v pp hv hpp =
    let test : ℕ → ℕ → Bool =
      λ a b. vpp_to_privilege_level a b == (if b == 3 then 3 else a * 4 + b) in
    let computed : every 2 (λ a. every 4 (test a)) ≡ true = refl in
    (==_iff (vpp_to_privilege_level v pp) _).0
      (every_sound 4 (test v) (every_sound 2 (λ a. every 4 (test a)) computed v hv) pp hpp)

module _ {M : Type 0} where
  -- The fields that hold a level: in their widths, and mstatus.mpp not at its reserved value.
  abbrev pub HoldsLevels : Hart M → Type 0
  HoldsLevels h =
      (h.mpv < 2)
      × ((h.mstatus.mpp ≡ user_mode)
          ⊎ (h.mstatus.mpp ≡ supervisor_mode)
          ⊎ (h.mstatus.mpp ≡ machine_mode))
      × (h.hstatus.spv < 2)
      × (h.mstatus.spp < 2)
      × (h.vsstatus.spp < 2)

  return-TrapsTo :
      (t : ℕ) (h back : Hart M) {prv : ℕ}
      → HoldsLevels h
      → TrapsTo t prv
      → return_from_trap_handler t h ≡ ok back
      → TrapsTo t back.prv × HoldsLevels back
  unfolding return_from_trap_handler restore_from restore_from_m restore_from_s restore_from_vs
      stsp_swap_sp_on_mode_change swap_mtsp swap_vstsp swap_stsp swap_htsp swap_from_v
      swap_from_user
  return-TrapsTo t h back fields traps e = ground (
    arith,
    vpp_table h.mpv h.mstatus.mpp,
    vpp_table h.hstatus.spv h.mstatus.spp,
    vpp_table 1 h.vsstatus.spp,
  )

  -- A return from a mode returns.
  returns :
      (t : ℕ) (h : Hart M) {prv : ℕ}
      → TrapsTo t prv
      → (back : Hart M) × (return_from_trap_handler t h ≡ ok back)
  returns t h traps = ok_of_not_stop (return_from_trap_handler t h) (return_never_stops t h traps)

  pub sret-back :
      (has_s : Bool) (h back : Hart M)
      → IsLevel h.prv
      → HoldsLevels h
      → sret has_s h ≡ ok back
      → HoldsLevels back
        × TrapsTo (if h.prv == machine_mode then supervisor_mode else h.prv) back.prv
  unfolding sret
  sret-back has_s h back level fields e =
      let s = return-TrapsTo supervisor_mode h back fields (inr (inl (refl, inl refl))) in
      let vs = return-TrapsTo virtual_supervisor_mode h back fields (inr (inr (refl, inl refl))) in
      ground arith

  -- SRET returns exactly with the supervisor extension and in machine mode, a supervisor mode
  -- whose TSR is clear, or a virtual supervisor mode whose VTSR is clear.
  sret_returns :
      (has_s : Bool) (h : Hart M)
      → IsLevel h.prv
      → ((back : Hart M) × (sret has_s h ≡ ok back)) ↔ (
          (has_s ≡ true)
          × ((h.prv ≡ machine_mode)
              ⊎ (((h.prv ≡ supervisor_mode) × (h.mstatus.tsr ≡ false))
                  ⊎ ((h.prv ≡ virtual_supervisor_mode) × (h.hstatus.vtsr ≡ false)))))
  unfolding sret
  sret_returns has_s h level =
      let (s, from_s) = returns supervisor_mode h (inr (inl (refl, inl refl))) in
      let (vs, from_vs) = returns virtual_supervisor_mode h (inr (inr (refl, inl refl))) in
      (
        (λ back. ground arith),
        λ allowed. elim allowed.1 [
          | inl m ↦ (s, ground arith)
          | inr (inl sup) ↦ (s, ground arith)
          | inr (inr virt) ↦ (vs, ground arith)
        ],
      )

  -- SRET on a hart whose level exists and whose fields hold levels. It is illegal without the
  -- supervisor extension and in a supervisor mode that TSR traps, a virtual instruction fault in a
  -- virtual supervisor mode that VTSR traps, and stops the simulation in user mode and virtual user
  -- mode. It returns in machine mode, in a supervisor mode with TSR clear and in a virtual supervisor
  -- mode with VTSR clear, and there only; its fields hold levels then, and it is never at a level more
  -- privileged than the one that the return is for.
  pub sret-TrapsTo :
      (has_s : Bool) (h : Hart M)
      → IsLevel h.prv
      → HoldsLevels h
      → ((sret has_s h ≡ raise_trap 2 h.instr)
          ↔ ((has_s ≡ false) ⊎ ((h.prv ≡ supervisor_mode) × (h.mstatus.tsr ≡ true))))
        × ((sret has_s h ≡ raise_trap 22 h.instr)
            ↔ ((has_s ≡ true) × (h.prv ≡ virtual_supervisor_mode) × (h.hstatus.vtsr ≡ true)))
        × ((sret has_s h ≡ stop runtime_error)
            ↔ ((has_s ≡ true) × ((h.prv ≡ user_mode) ⊎ (h.prv ≡ virtual_user_mode))))
        × (((back : Hart M) × (sret has_s h ≡ ok back)) ↔ (
            (has_s ≡ true)
            × ((h.prv ≡ machine_mode)
                ⊎ (((h.prv ≡ supervisor_mode) × (h.mstatus.tsr ≡ false))
                    ⊎ ((h.prv ≡ virtual_supervisor_mode) × (h.hstatus.vtsr ≡ false))))))
        × ((back : Hart M)
            → sret has_s h ≡ ok back
            → HoldsLevels back
              × TrapsTo (if h.prv == machine_mode then supervisor_mode else h.prv) back.prv)
  unfolding sret
  sret-TrapsTo has_s h level fields =
      let (s, from_s) = returns supervisor_mode h (inr (inl (refl, inl refl))) in
      let (vs, from_vs) = returns virtual_supervisor_mode h (inr (inr (refl, inl refl))) in
      (
        ground arith,
        ground arith,
        ground arith,
        sret_returns has_s h level,
        λ back e. sret-back has_s h back level fields e,
      )

  pub mret-back :
      (h back : Hart M)
      → HoldsLevels h
      → mret h ≡ ok back
      → HoldsLevels back × TrapsTo machine_mode back.prv
  unfolding mret
  mret-back h back fields e =
      let m = return-TrapsTo machine_mode h back fields (inl (refl, inl refl)) in ground arith

  returned_to :
      (h back : Hart M)
      → return_from_trap_handler machine_mode h ≡ ok back
      → back.prv ≡ vpp_to_privilege_level h.mpv h.mstatus.mpp
  unfolding return_from_trap_handler restore_from restore_from_m stsp_swap_sp_on_mode_change
      swap_mtsp
  returned_to h back e = ground arith

  -- MRET is illegal below machine mode. In machine mode it returns, and to a level that exists unless
  -- mstatus.mpp holds its reserved value, 2.
  pub mret-IsLevel :
      (h : Hart M)
      → (h.mpv < 2) × (h.mstatus.mpp < 4)
      → ((h.prv ≢ machine_mode) → mret h ≡ raise_trap 2 h.instr)
        × ((h.prv ≡ machine_mode)
            → (back : Hart M) × (mret h ≡ ok back) × (IsLevel back.prv ↔ (h.mstatus.mpp ≢ 2)))
  unfolding mret swap_mtsp
  mret-IsLevel h widths =
      let (back, returned) = returns machine_mode h (inl (refl, inr (inr (inl refl)))) in
      (
        λ other. ground arith,
        λ m. (
          back,
          ground arith,
          ground
              (arith, returned_to h back returned, vpp_table h.mpv h.mstatus.mpp widths.0 widths.1),
        ),
      )
