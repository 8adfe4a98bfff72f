-- ===== src/Trap/Jump.antt =====
-- The entry of a trap handler, in two parts: what is saved, and the jump.
use rvvp.Base.{refl, Bool, true, false, ℕ, ◌≡◌, ◌⊎◌, if◌then◌else◌, arith}
use rvvp.Core.Privilege.{
  user_mode, supervisor_mode, machine_mode, virtual_user_mode, virtual_supervisor_mode,
}
use rvvp.Core.Result.{Result, ok, ◌>>=◌, >>=-eq-ok, >>=-ok}
use rvvp.Trap.State.{Hart, Callees, registers}
use rvvp.Trap.Stack.{stsp_swap_sp_on_mode_change, release_lr_sc_reservation}
use rvvp.Trap.Enter.{
  save_for, vector_to, vector_to_line, irq_taken, verify_m_trap_vector, jump_to_trap_vector,
  switch_to_trap_handler, set_pending_ivt,
}

abbrev pub Virtual : ℕ → Type 0
Virtual prv = (prv ≡ virtual_user_mode) ⊎ (prv ≡ virtual_supervisor_mode)

-- The levels that a hart can be at.
abbrev pub IsLevel : ℕ → Type 0
IsLevel prv = (prv ≡ user_mode) ⊎ (prv ≡ supervisor_mode) ⊎ (prv ≡ machine_mode) ⊎ Virtual prv

-- The modes that a trap can be taken to from a level: never to a less privileged one.
abbrev pub TrapsTo : ℕ → ℕ → Type 0
TrapsTo target prv =
    ((target ≡ machine_mode) × IsLevel prv)
    ⊎ ((target ≡ supervisor_mode) × ((prv ≡ user_mode) ⊎ (prv ≡ supervisor_mode) ⊎ Virtual prv))
    ⊎ ((target ≡ virtual_supervisor_mode) × Virtual prv)

module _ {M : Type 0} where
  -- What the jump to the handler changes: the program counter, at once or in the next step, and what
  -- the call of `notify_irq_taken` does.
  abbrev pub Jumped : Hart M → Hart M → Type 0
  Jumped h h' = h' ≡ record h {
    pc = h'.pc;
    ivt_pending = h'.ivt_pending;
    ivt_entry_address = h'.ivt_entry_address;
    called = h'.called;
  }

  vector_to-Jumped : (c : Callees M) (t : ℕ) (h h' : Hart M) → vector_to c t h ≡ ok h' → Jumped h h'
  unfolding vector_to vector_to_line set_pending_ivt
  vector_to-Jumped c t h h' e = ground arith

  irq_taken-Jumped : (c : Callees M) (t : ℕ) (h h' : Hart M) → irq_taken c t h ≡ ok h' → Jumped h h'
  unfolding irq_taken
  irq_taken-Jumped c t h h' e = ground arith

  -- The jump, taken apart.
  after_vector :
      (c : Callees M) (t : ℕ) (h h' : Hart M)
      → jump_to_trap_vector c t h ≡ ok h'
      → (vector_to c t h >>= λ (jumped : Hart M).
          if (registers t h).cause.interrupt then irq_taken c t jumped else ok jumped)
        ≡ ok h'
  unfolding jump_to_trap_vector verify_m_trap_vector
  after_vector c t h h' e = ground arith

  after_call :
      (c : Callees M) (t : ℕ) (h h' : Hart M) (interrupt : Bool)
      → (if interrupt then irq_taken c t h else ok h) ≡ ok h'
      → Jumped h h'
  after_call c t h h' true e = irq_taken-Jumped c t h h' e
  after_call c t h h' false e = ground arith

  pub jump_to_trap_vector-Jumped :
      (c : Callees M) (t : ℕ) (h h' : Hart M) → jump_to_trap_vector c t h ≡ ok h' → Jumped h h'
  jump_to_trap_vector-Jumped c t h h' e =
      let (jumped, first, rest) = >>=-eq-ok (vector_to c t h) _ (after_vector c t h h' e) in
      let there : Jumped h jumped = vector_to-Jumped c t h jumped first in
      let taken : Jumped jumped h' = after_call c t jumped h' _ rest in ground arith

  -- The switch up to the jump.
  unfoldable pub entered : Callees M → ℕ → Hart M → Result (Hart M)
  unfolding release_lr_sc_reservation stsp_swap_sp_on_mode_change save_for
  entered c t h =
      stsp_swap_sp_on_mode_change t h.prv (record (release_lr_sc_reservation c h) { prv = t })
      >>= λ swapped. save_for t h.prv swapped

  pub entered-Jumped :
      (c : Callees M) (t : ℕ) (h h' : Hart M)
      → switch_to_trap_handler c t h ≡ ok h'
      → (saved : Hart M) × (entered c t h ≡ ok saved) × Jumped saved h'
  unfolding entered switch_to_trap_handler
  entered-Jumped c t h h' e =
      let (swapped, first, rest) =
        >>=-eq-ok
          (stsp_swap_sp_on_mode_change t h.prv (record (release_lr_sc_reservation c h) { prv = t }))
          _ e in
      let (saved, second, third) = >>=-eq-ok (save_for t h.prv swapped) _ rest in
      (
        saved,
        >>=-ok _ (save_for t h.prv) first second,
        jump_to_trap_vector-Jumped c t saved h' third,
      )

  pub switch-entered :
      (c : Callees M) (t : ℕ) (h saved : Hart M)
      → entered c t h ≡ ok saved
      → switch_to_trap_handler c t h ≡ jump_to_trap_vector c t saved
  unfolding entered switch_to_trap_handler
  switch-entered c t h saved e =
      let (swapped, first, second) =
        >>=-eq-ok
          (stsp_swap_sp_on_mode_change t h.prv (record (release_lr_sc_reservation c h) { prv = t }))
          (save_for t h.prv) e in
      >>=-ok _ _ first (>>=-ok _ _ second refl)
