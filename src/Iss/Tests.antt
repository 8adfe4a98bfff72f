-- ===== src/Iss/Tests.antt =====
-- The integer instructions at concrete words, with a memory of one word.
use rvvp.Base.{ℕ, ◌-◌, ◌^◌, ◌≡◌, refl, true, some, arith}
use rvvp.Core.Result.{Result, ok}
use rvvp.Iss.Alu
use rvvp.Instr.Fields.{j_imm}
use rvvp.Instr.Word.{asr}
use rvvp.Iss.State.{
  pure, ◌>>=◌, proceed, get_pc, get_last_pc, jump, trap_check_pc_alignment, write_reg, Iss, update,
  runnable,
}
use rvvp.Iss.Memory.{DataMemory, on_memory}
use rvvp.Iss.Execute.{execute, jal_step}
use rvvp.Iss.Quiet.{IsQuiet}
use rvvp.Iss.Step.{exec_step, begin_step, fetch, assert_aligned, decode_normal_word, advance_pc}
use rvvp.Instr.Decode.{decode_normal}
use rvvp.Instr.Tree.{run}
use rvvp.Iss.Boundary.{Ended, exec_step-Ended}
use rvvp.Iss.Quiet.{QuietLoad}
use rvvp.Iss.Division.{IsDivided, div-rem}

abbrev loads : ℕ → ℕ → Result ℕ × ℕ
loads m addr = (ok m, m)

abbrev stores : ℕ → ℕ → ℕ → Result (Unit {0}) × ℕ
stores m addr value = (ok tt, value)

abbrev one_word : DataMemory ℕ
one_word = record {
  load_word = loads;
  load_half = loads;
  load_uhalf = loads;
  load_byte = loads;
  load_ubyte = loads;
  store_word = stores;
  store_half = stores;
  store_byte = stores;
  atomic_load_word = loads;
  atomic_store_word = stores;
  atomic_load_reserved_word = loads;
  atomic_store_conditional_word = λ m addr value. (ok true, value);
}

quiet_loads : QuietLoad loads
quiet_loads m addr = tt

one_word-IsQuiet : IsQuiet one_word
one_word-IsQuiet = record {
  quiet_load_word = λ m addr. tt;
  quiet_load_half = λ m addr. tt;
  quiet_load_uhalf = λ m addr. tt;
  quiet_load_byte = λ m addr. tt;
  quiet_load_ubyte = λ m addr. tt;
  quiet_store_word = λ m addr value. tt;
  quiet_store_half = λ m addr value. tt;
  quiet_store_byte = λ m addr value. tt;
  quiet_atomic_load_word = λ m addr. tt;
  quiet_atomic_store_word = λ m addr value. tt;
  quiet_atomic_load_reserved_word = λ m addr. tt;
  quiet_atomic_store_conditional_word = λ m addr value. tt;
}

-- Without compressed instructions, behind the fetch of a word at 0x1000.
abbrev at_1000 : Iss ℕ
at_1000 = record {
  regs = λ i. 5;
  pc = 0x1000;
  last_pc = 0x0ffc;
  misa = 2 ^ 8;
  lr_sc_counter = 0;
  status = runnable;
  memory = 0x008000ef;
}

-- Behind a jump by 8, which is the word in the memory.
abbrev at_1008 : Iss ℕ
at_1008 = record at_1000 { regs = update 1 0x1004 (λ i. 5); pc = 0x1008; last_pc = 0x1000 }

jal_step_taken : exec_step loads one_word (begin_step at_1000) ≡ some (ok tt, at_1008)
unfolding exec_step fetch ◌>>=◌ proceed assert_aligned on_memory decode_normal_word advance_pc pure
    execute decode_normal run jal_step get_pc get_last_pc jump trap_check_pc_alignment j_imm asr
    write_reg
jal_step_taken = refl

exec_step-Ended_example : Ended loads quiet_loads one_word one_word-IsQuiet at_1000 (ok tt, at_1008)
exec_step-Ended_example =
    exec_step-Ended loads quiet_loads one_word one_word-IsQuiet at_1000 (ok tt, at_1008)
      (λ i. omega arith) refl jal_step_taken

div-rem_example : IsDivided (2 ^ 32 - 7) 2 (2 ^ 32 - 3) (2 ^ 32 - 1)
unfolding Alu.div Alu.rem Alu.quotient Alu.remainder
div-rem_example = div-rem (2 ^ 32 - 7) 2 (omega arith) (omega arith)
