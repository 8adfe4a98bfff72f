-- ===== src/Iss/Quiet.antt =====
-- The instructions that access the memory keep the states of the simulator, if the accesses return or
-- end in a trap.
use rvvp.Base.{ℕ, refl, true, false}
use rvvp.Core.Result.{Result, ok, stop, simulation_trap, runtime_error, assertion}
use rvvp.Instr.Fields.{rd, rs1, rs2}
use rvvp.Iss.Memory.{
  DataMemory, on_memory, load, store, load_reserved, store_conditional, amo_fault, execute_amo,
}
use rvvp.Iss.Valid.{
  Any, OnlyTraps, After, Keeps, bind-Keeps, read_reg-Keeps, write_reg-Keeps,
  trap_check_addr_alignment-Keeps, set_lr_sc_counter-Keeps,
}

module _ {M : Type 0} where
  abbrev pub QuietLoad : {A : Type 0} → (M → ℕ → Result A × M) → Type 0
  QuietLoad f = (m : M) (addr : ℕ) → OnlyTraps (f m addr).0

  abbrev pub QuietStore : {A : Type 0} → (M → ℕ → ℕ → Result A × M) → Type 0
  QuietStore f = (m : M) (addr value : ℕ) → OnlyTraps (f m addr value).0

  -- Each access returns or ends in a trap.
  pub record IsQuiet (mem : DataMemory M) : Type 0 where
    pub quiet_load_word : QuietLoad mem.load_word
    pub quiet_load_half : QuietLoad mem.load_half
    pub quiet_load_uhalf : QuietLoad mem.load_uhalf
    pub quiet_load_byte : QuietLoad mem.load_byte
    pub quiet_load_ubyte : QuietLoad mem.load_ubyte
    pub quiet_store_word : QuietStore mem.store_word
    pub quiet_store_half : QuietStore mem.store_half
    pub quiet_store_byte : QuietStore mem.store_byte
    pub quiet_atomic_load_word : QuietLoad mem.atomic_load_word
    pub quiet_atomic_store_word : QuietStore mem.atomic_store_word
    pub quiet_atomic_load_reserved_word : QuietLoad mem.atomic_load_reserved_word
    pub quiet_atomic_store_conditional_word : QuietStore mem.atomic_store_conditional_word

  on_memory-Keeps :
      {A : Type 0} (f : M → Result A × M) → ((m : M) → OnlyTraps (f m).0) → Keeps Any (on_memory f)
  unfolding on_memory
  on_memory-Keeps {A} f quiet s valid = at (f s.memory).0 (quiet s.memory)
    where
      at : (r : Result A) → OnlyTraps r → After s Any (r, record s { memory = (f s.memory).1 })
      at (ok a) q = (tt, valid, (refl, refl))
      at (stop e) q = (q, valid.0, (refl, refl))

  pub load-Keeps :
      (f : M → ℕ → Result ℕ × M) (alignment instr : ℕ)
      → QuietLoad f
      → Keeps Any (load f alignment instr)
  unfolding load
  load-Keeps f alignment instr quiet = bind-Keeps _ Any _ _ (read_reg-Keeps (rs1 instr)) (λ base _.
      bind-Keeps Any Any _ _ (trap_check_addr_alignment-Keeps alignment true _) (λ _ _.
        bind-Keeps Any Any _ _ (on_memory-Keeps _ (λ m. quiet m _))
          (λ value _. write_reg-Keeps (rd instr) value)))

  pub store-Keeps :
      (f : M → ℕ → ℕ → Result (Unit {0}) × M) (bytes instr : ℕ)
      → QuietStore f
      → Keeps Any (store f bytes instr)
  unfolding store
  store-Keeps f bytes instr quiet = bind-Keeps _ Any _ _ (read_reg-Keeps (rs1 instr)) (λ base _.
      bind-Keeps Any Any _ _ (trap_check_addr_alignment-Keeps bytes false _) (λ _ _.
        bind-Keeps _ Any _ _ (read_reg-Keeps (rs2 instr))
          (λ value _. on_memory-Keeps _ (λ m. quiet m _ _))))

  module _ (mem : DataMemory M) (q : IsQuiet mem) where
    pub load_reserved-Keeps : (instr : ℕ) → Keeps Any (load_reserved mem instr)
    unfolding load_reserved
    load_reserved-Keeps instr = bind-Keeps _ Any _ _ (read_reg-Keeps (rs1 instr)) (λ addr _.
        bind-Keeps Any Any _ _ (trap_check_addr_alignment-Keeps 4 true addr) (λ _ _.
          bind-Keeps Any Any _ _ (on_memory-Keeps _ (λ m. q.quiet_atomic_load_reserved_word m addr))
            (λ value _.
              bind-Keeps Any Any _ _ (write_reg-Keeps (rd instr) value)
                (λ _ _. set_lr_sc_counter-Keeps _))))

    pub store_conditional-Keeps : (instr : ℕ) → Keeps Any (store_conditional mem instr)
    unfolding store_conditional
    store_conditional-Keeps instr = bind-Keeps _ Any _ _ (read_reg-Keeps (rs1 instr)) (λ addr _.
        bind-Keeps Any Any _ _ (trap_check_addr_alignment-Keeps 4 false addr) (λ _ _.
          bind-Keeps _ Any _ _ (read_reg-Keeps (rs2 instr)) (λ val _.
            bind-Keeps Any Any _ _ (write_reg-Keeps (rd instr) 1) (λ _ _.
              bind-Keeps Any Any _ _
                (on_memory-Keeps _ (λ m. q.quiet_atomic_store_conditional_word m addr val))
                (λ stored _.
                  bind-Keeps Any Any _ _ (write_reg-Keeps (rd instr) _)
                    (λ _ _. set_lr_sc_counter-Keeps _))))))

    amo_fault-OnlyTraps : (r : Result ℕ) → OnlyTraps r → OnlyTraps (amo_fault r)
    amo_fault-OnlyTraps (ok a) quiet = tt
    amo_fault-OnlyTraps (stop (simulation_trap t)) quiet = (_, refl)
    amo_fault-OnlyTraps (stop runtime_error) (e, same) = cc same
    amo_fault-OnlyTraps (stop assertion) (e, same) = cc same

    pub execute_amo-Keeps :
        (operation : ℕ → ℕ → ℕ) (instr : ℕ) → Keeps Any (execute_amo mem operation instr)
    unfolding execute_amo
    execute_amo-Keeps operation instr = bind-Keeps _ Any _ _ (read_reg-Keeps (rs1 instr)) (λ addr _.
        bind-Keeps Any Any _ _ (trap_check_addr_alignment-Keeps 4 false addr) (λ _ _.
          bind-Keeps Any Any _ _
            (on_memory-Keeps _ (λ m. amo_fault-OnlyTraps _ (q.quiet_atomic_load_word m addr)))
            (λ old _. bind-Keeps _ Any _ _ (read_reg-Keeps (rs2 instr)) (λ operand _.
              bind-Keeps Any Any _ _ (on_memory-Keeps _ (λ m. q.quiet_atomic_store_word m addr _))
                (λ _ _. write_reg-Keeps (rd instr) _)))))
