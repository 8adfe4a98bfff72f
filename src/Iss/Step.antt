-- ===== src/Iss/Step.antt =====
-- core/rv32/iss.cpp: the fetch and decoding at the start of `exec_step`, the step as a whole for the
-- integer instructions, and what `run_step` does around it.
use rvvp.Base.{ℕ, ◌+◌, ◌==◌, if◌then◌else◌, bit_and, Option, none, some}
use rvvp.Base.Bits.{bit_not}
use rvvp.Core.Result.{Result, ok, stop, runtime_error, assertion}
use rvvp.Instr.Mapping.{Mapping}
use rvvp.Instr.Tree.{rv32}
use rvvp.Instr.Index.{index}
use rvvp.Instr.Decode.{decode_normal}
use rvvp.Instr.Fields.{is_compressed}
use rvvp.Instr.Expand.{decode_and_expand_compressed}
use rvvp.Iss.Alu.{word}
use rvvp.Iss.State.{Iss, Action, ◌>>=◌, ◌>>◌, pure, require_isa, update, pc_alignment_mask}
use rvvp.Iss.Memory.{DataMemory, on_memory}
use rvvp.Iss.Execute.{execute}

abbrev c_isa_ext : ℕ
c_isa_ext = 4

module _ {M : Type 0} where
  -- `assert(((pc & ~pc_alignment_mask()) == 0) && "misaligned instruction")`
  unfoldable pub assert_aligned : Action M (Unit {0})
  assert_aligned s =
      if bit_and s.pc (bit_not 32 (pc_alignment_mask s)) == 0
      then (ok tt, s)
      else (stop assertion, s)

  -- `pc += n`
  unfoldable pub advance_pc : ℕ → Action M (Unit {0})
  advance_pc n s = (ok tt, record s { pc = word (s.pc + n) })

  -- What follows on the decoder for compressed instructions, whose exception is `none`.
  unfoldable pub take_expansion : Option (ℕ × Mapping) → Action M (ℕ × Mapping)
  take_expansion none s = (stop runtime_error, s)
  take_expansion (some (instr, op)) s =
      (do
        advance_pc 2
        if index op == 0 then pure tt else require_isa c_isa_ext instr
        pure (instr, op))
        s

  unfoldable pub decode_normal_word : ℕ → Action M (ℕ × Mapping)
  decode_normal_word instr = do advance_pc 4; pure (instr, decode_normal rv32 instr)

  -- The instruction is held, with the word that it has after an expansion.
  unfoldable pub fetch : (M → ℕ → Result ℕ × M) → Action M (ℕ × Mapping)
  fetch load_instr = do
    assert_aligned
    instr ← λ s. on_memory (λ m. load_instr m s.pc) s
    if is_compressed (word instr)
        then take_expansion (decode_and_expand_compressed rv32 (word instr))
        else decode_normal_word (word instr)

  abbrev pub dispatch :
      DataMemory M → Result (ℕ × Mapping) × Iss M → Option (Result (Unit {0}) × Iss M)
  dispatch mem (stop why, t) = some (stop why, t)
  dispatch mem (ok (instr, op), t) = elim (execute mem op instr) [
    | none ↦ none
    | some action ↦ some (action t)
  ]

  -- `none` for the instructions that the model leaves out.
  unfoldable pub exec_step :
      (M → ℕ → Result ℕ × M) → DataMemory M → Iss M → Option (Result (Unit {0}) × Iss M)
  exec_step load_instr mem s = dispatch mem (fetch load_instr s)

  -- `last_pc = pc` before the step, and `regs.regs[regs.zero] = 0` behind it.
  abbrev pub begin_step : Iss M → Iss M
  begin_step s = record s { last_pc = s.pc }

  abbrev pub end_step : Iss M → Iss M
  end_step s = record s { regs = update 0 0 s.regs }
