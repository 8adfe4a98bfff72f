-- ===== src/Iss/Steps.antt =====
-- The integer instructions keep the states of the simulator.
use rvvp.Base.{ℕ, ◌+◌, ◌%◌, ◌≡◌, Bool, true, false, if◌then◌else◌, bit_and, arith}
use rvvp.Base.Bits.{bit_not, bit_and_high}
use rvvp.Instr.Even.{j_imm-even, b_imm-even}
use rvvp.Instr.Fields.{rd, rs1, rs2, i_imm, b_imm, j_imm}
use rvvp.Iss.Alu.{word}
use rvvp.Iss.State.{pure, jump}
use rvvp.Iss.Valid.{
  Any, Keeps, bind-Keeps, pure-Keeps, read_reg-Keeps, write_reg-Keeps, get_pc-Keeps,
  get_last_pc-Keeps, jump-Keeps, word_lt,
}
use rvvp.Iss.Execute.{
  with_immediate, with_register, with_shamt, auipc_step, jal_step, jalr_step, branch,
}

offset_even : (last offset : ℕ) → last % 2 ≡ 0 → offset % 2 ≡ 0 → word (last + offset) % 2 ≡ 0
offset_even last offset even_last even_offset = omega arith

cleared_even : (a : ℕ) → word (bit_and (word a) (bit_not 32 1)) % 2 ≡ 0
cleared_even a = omega (arith, bit_and_high 32 1 (word a) (word_lt a) (omega arith))

module _ {M : Type 0} where
  pub with_immediate-Keeps :
      (f : ℕ → ℕ → ℕ) (instr : ℕ) → Keeps {M = M} Any (with_immediate f instr)
  unfolding with_immediate
  with_immediate-Keeps f instr =
      bind-Keeps _ Any _ _ (read_reg-Keeps (rs1 instr)) (λ a _. write_reg-Keeps (rd instr) _)

  pub with_register-Keeps : (f : ℕ → ℕ → ℕ) (instr : ℕ) → Keeps {M = M} Any (with_register f instr)
  unfolding with_register
  with_register-Keeps f instr = bind-Keeps _ Any _ _ (read_reg-Keeps (rs1 instr)) (λ a _.
      bind-Keeps _ Any _ _ (read_reg-Keeps (rs2 instr)) (λ b _. write_reg-Keeps (rd instr) _))

  pub with_shamt-Keeps : (f : ℕ → ℕ → ℕ) (instr : ℕ) → Keeps {M = M} Any (with_shamt f instr)
  unfolding with_shamt
  with_shamt-Keeps f instr =
      bind-Keeps _ Any _ _ (read_reg-Keeps (rs1 instr)) (λ a _. write_reg-Keeps (rd instr) _)

  pub auipc_step-Keeps : (instr : ℕ) → Keeps {M = M} Any (auipc_step instr)
  unfolding auipc_step
  auipc_step-Keeps instr =
      bind-Keeps _ Any _ _ get_last_pc-Keeps (λ last _. write_reg-Keeps (rd instr) _)

  pub jal_step-Keeps : (instr : ℕ) → Keeps {M = M} Any (jal_step instr)
  unfolding jal_step
  jal_step-Keeps instr = bind-Keeps Any Any _ _ get_pc-Keeps (λ link _.
      bind-Keeps _ Any _ _ get_last_pc-Keeps (λ last even.
        bind-Keeps Any Any _ _
          (jump-Keeps _ (offset_even last (j_imm instr) even (j_imm-even instr)))
          (λ _ _. write_reg-Keeps (rd instr) link)))

  pub jalr_step-Keeps : (instr : ℕ) → Keeps {M = M} Any (jalr_step instr)
  unfolding jalr_step
  jalr_step-Keeps instr = bind-Keeps Any Any _ _ get_pc-Keeps (λ link _.
      bind-Keeps _ Any _ _ (read_reg-Keeps (rs1 instr)) (λ a _.
        bind-Keeps Any Any _ _ (jump-Keeps _ (cleared_even (a + i_imm instr)))
          (λ _ _. write_reg-Keeps (rd instr) link)))

  pub branch-Keeps : (holds : ℕ → ℕ → Bool) (instr : ℕ) → Keeps {M = M} Any (branch holds instr)
  unfolding branch
  branch-Keeps holds instr = bind-Keeps _ Any _ _ (read_reg-Keeps (rs1 instr)) (λ a _.
      bind-Keeps _ Any _ _ (read_reg-Keeps (rs2 instr)) (λ b _.
        bind-Keeps _ Any _ _ get_last_pc-Keeps (λ last even.
          either (holds a b) (last + b_imm instr)
            (offset_even last (b_imm instr) even (b_imm-even instr)))))
    where
      either :
          (taken : Bool) (target : ℕ)
          → word target % 2 ≡ 0
          → Keeps {M = M} Any (if taken then jump target else pure tt)
      either true target even = jump-Keeps target even
      either false target even = pure-Keeps Any tt tt
