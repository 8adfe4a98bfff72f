-- ===== src/Iss/Boundary.antt =====
-- A whole step of an integer instruction, from the fetch on.
use rvvp.Base.{
  ℕ, ◌+◌, ◌%◌, ◌≡◌, ◌≢◌, ◌⊎◌, inl, inr, refl, sym, ap, ◌∙◌, Bool, true, false, Bool-cases,
  Option-cases, ◌==◌, if◌then◌else◌, bit_and, Option, none, some, arith,
}
use mathlib.Core.Path.{subst}
use rvvp.Base.Bits.{bit_not, bit_and_mask}
use rvvp.Core.Result.{Result, ok, stop}
use rvvp.Instr.Mapping.{Mapping, undef}
use rvvp.Instr.Index.{index}
use rvvp.Instr.Table.{index-injective}
use rvvp.Instr.Tree.{rv32}
use rvvp.Instr.Fields.{is_compressed}
use rvvp.Instr.Expand.{decode_and_expand_compressed}
use rvvp.Instr.Expansion.{decode_and_expand_compressed-none_iff}
use rvvp.Iss.Alu.{word}
use rvvp.Iss.State.{
  Iss, Action, ◌>>=◌, proceed, pure, raise, require_isa, has_c_extension, pc_alignment_mask,
}
use rvvp.Iss.Memory.{DataMemory, on_memory}
use rvvp.Iss.Execute.{execute}
use rvvp.Iss.Step.{
  assert_aligned, advance_pc, take_expansion, decode_normal_word, fetch, dispatch, exec_step,
  begin_step, end_step,
}
use rvvp.Iss.Valid.{
  Any, IsTrap, OnlyTraps, Registers, Aligned, IsValid, Same, After, After-Same, update-lt,
}
use rvvp.Iss.Quiet.{QuietLoad, IsQuiet}
use rvvp.Iss.Preserve.{execute-IsValid}

module _ {M : Type 0} where
  -- Where `pc` may be before an instruction: `pc` is aligned and, so, even.
  Aligned-even : (s : Iss M) → Aligned s → s.pc % 2 ≡ 0
  Aligned-even s aligned = elim (Bool-cases (has_c_extension s)) [
    | inl c ↦ sym (bit_and_mask s.pc 1) ∙ rw c at aligned
    | inr no_c ↦
        let four : bit_and s.pc 3 ≡ 0 = rw no_c at aligned in
        omega (arith, bit_and_mask s.pc 2, four)
  ]

  -- `pc` moved on.
  abbrev moved : ℕ → Iss M → Iss M
  moved n s = record s { pc = word (s.pc + n) }

  moved_4 : (s : Iss M) → Aligned s → Aligned (moved 4 s)
  moved_4 s aligned = elim (Bool-cases (has_c_extension s)) [
    | inl c ↦
        let low : bit_and s.pc 1 ≡ 0 = rw c at aligned in
        rw c (omega (arith, bit_and_mask s.pc 1, bit_and_mask (word (s.pc + 4)) 1, low))
    | inr no_c ↦
        let low : bit_and s.pc 3 ≡ 0 = rw no_c at aligned in
        rw no_c (omega (arith, bit_and_mask s.pc 2, bit_and_mask (word (s.pc + 4)) 2, low))
  ]

  moved_2 : (s : Iss M) → has_c_extension s ≡ true → Aligned s → Aligned (moved 2 s)
  moved_2 s c aligned =
      let low : bit_and s.pc 1 ≡ 0 = rw c at aligned in
      rw c (omega (arith, bit_and_mask s.pc 1, bit_and_mask (word (s.pc + 2)) 1, low))

  -- After a fetch: an instruction, with `pc` aligned again unless it is undefined, or a trap.
  abbrev Fetched : Iss M → Result (ℕ × Mapping) × Iss M → Type 0
  Fetched s (ok (instr, op), t) =
      Registers t × (t.last_pc % 2 ≡ 0) × Same s t × ((op ≡ undef) ⊎ Aligned t)
  Fetched s (stop why, t) = IsTrap why × Registers t × Same s t

  normal-Fetched : (instr : ℕ) (s : Iss M) → IsValid s → Fetched s (decode_normal_word instr s)
  unfolding decode_normal_word ◌>>=◌ proceed advance_pc pure
  normal-Fetched instr s (regs, even, aligned) = (regs, even, (refl, refl), inr (moved_4 s aligned))

  expansion-Fetched :
      (o : Option (ℕ × Mapping)) (s : Iss M) → o ≢ none → IsValid s → Fetched s (take_expansion o s)
  unfolding take_expansion ◌>>=◌ proceed advance_pc pure require_isa raise
  expansion-Fetched none s some_o valid = absurd (some_o refl)
  expansion-Fetched (some (instr, op)) s some_o (regs, even, aligned) =
      elim (Bool-cases (index op == 0)) [
        | inl none_known ↦
            let unknown : op ≡ undef = index-injective op undef (ground arith) in
            rw none_known (regs, even, (refl, refl), inl unknown)
        | inr known ↦ elim (Bool-cases (has_c_extension s)) [
          | inl c ↦ rw (known, c) (regs, even, (refl, refl), inr (moved_2 s c aligned))
          | inr no_c ↦ rw (known, no_c) ((_, refl), regs, (refl, refl))
        ]
      ]

  module _ (load_instr : M → ℕ → Result ℕ × M) (quiet : QuietLoad load_instr) where
    fetch-Fetched : (s : Iss M) → IsValid s → Fetched s (fetch load_instr s)
    unfolding fetch ◌>>=◌ proceed assert_aligned on_memory
    fetch-Fetched s (regs, even, aligned) =
        let here : (bit_and s.pc (bit_not 32 (pc_alignment_mask s)) == 0) ≡ true = ground arith in
        rw here (loaded (load_instr s.memory s.pc).0 (quiet s.memory s.pc))
      where
        t : Iss M
        t = record s { memory = (load_instr s.memory s.pc).1 }

        decoded :
            (instr : ℕ) (compressed : Bool)
            → is_compressed instr ≡ compressed
            → Fetched t (
                (if compressed
                    then take_expansion (decode_and_expand_compressed rv32 instr)
                    else decode_normal_word instr)
                  t)
        decoded instr true e =
            expansion-Fetched (decode_and_expand_compressed rv32 instr) t
              (λ thrown. cc (e, (decode_and_expand_compressed-none_iff rv32 instr).0 thrown))
              (regs, even, aligned)
        decoded instr false e = normal-Fetched instr t (regs, even, aligned)

        loaded :
            (r : Result ℕ)
            → OnlyTraps r
            → Fetched s (
                proceed
                  (r, t)
                  (λ instr.
                    if is_compressed (word instr)
                    then take_expansion (decode_and_expand_compressed rv32 (word instr))
                    else decode_normal_word (word instr)))
        loaded (ok instr) q = decoded (word instr) (is_compressed (word instr)) refl
        loaded (stop why) q = (q, regs, (refl, refl))

    module _ (mem : DataMemory M) (q : IsQuiet mem) where
      -- An undefined instruction is a trap, whatever `pc` is.
      undef-After :
          (instr : ℕ) (op : Mapping) (action : Action M (Unit {0})) (t : Iss M)
          → op ≡ undef
          → execute mem op instr ≡ some action
          → Registers t
          → After t Any (action t)
      unfolding execute raise
      undef-After instr op action t unknown case regs =
          let raised : ◌≡◌ {A = Option (Action M (Unit {0}))} (some (raise 2 instr)) (some action) =
            ap (λ o. execute mem o instr) (sym unknown) ∙ case in
          let same : ◌≡◌ {A = Action M (Unit {0})} (raise 2 instr) action = cc raised in
          subst (λ (a : Action M (Unit {0})). After t Any (a t)) same
            ((_, refl), regs, (refl, refl))

      dispatch-After :
          (s : Iss M) (fetched : Result (ℕ × Mapping) × Iss M) (r : Result (Unit {0}) × Iss M)
          → Fetched s fetched
          → dispatch mem fetched ≡ some r
          → After s Any r
      dispatch-After s (stop why, t) r trapped h =
          let same : ◌≡◌ {A = Result (Unit {0}) × Iss M} (stop why, t) r = cc h in
          subst (After s Any) same trapped
      dispatch-After s (ok (instr, op), t) r (regs, even, kept, fine) h =
          elim (Option-cases (execute mem op instr)) [
            | inl left_out ↦ cc (rw (dispatch, left_out) at h)
            | inr (action, case) ↦
                let same : ◌≡◌ {A = Result (Unit {0}) × Iss M} (action t) r =
                  cc (rw (dispatch, case) at h) in
                let here : After t Any (action t) = elim fine [
                  | inl unknown ↦ undef-After instr op action t unknown case regs
                  | inr aligned ↦ execute-IsValid mem q op instr action case t (regs, even, aligned)
                ] in
                subst (After s Any) same (After-Same Any s t (action t) kept here)
          ]

      -- The end of a step: `pc` may be where the next begins, or the trap handler is told where it began.
      abbrev pub Ended : Iss M → Result (Unit {0}) × Iss M → Type 0
      Ended s (ok a, t) =
          Registers (end_step t)
          × ((end_step t).regs 0 ≡ 0)
          × Aligned (end_step t)
          × (t.last_pc ≡ s.pc)
      Ended s (stop why, t) =
          IsTrap why × Registers (end_step t) × ((end_step t).regs 0 ≡ 0) × (t.last_pc ≡ s.pc)

      zeroed : (t : Iss M) → Registers t → Registers (end_step t)
      zeroed t regs = update-lt 0 0 t.regs regs (omega arith)

      -- A step of an integer instruction, compressed or not, that begins with words of 32 bits in the
      -- registers and `pc` aligned ends in the same way, with 0 in x0 and the address of the instruction in
      -- `last_pc`, or in a trap with the registers words and x0 zero; in no failed assertion and no other
      -- exception, if the fetch and the accesses to the memory return or end in traps.
      pub exec_step-Ended :
          (s : Iss M) (r : Result (Unit {0}) × Iss M)
          → Registers s
          → Aligned s
          → exec_step load_instr mem (begin_step s) ≡ some r
          → Ended s r
      unfolding exec_step
      exec_step-Ended s r regs aligned h = ended r (
          dispatch-After (begin_step s) (fetch load_instr (begin_step s)) r
            (fetch-Fetched (begin_step s) (regs, Aligned-even s aligned, aligned)) h)
        where
          ended : (r : Result (Unit {0}) × Iss M) → After (begin_step s) Any r → Ended s r
          ended (ok a, t) (any, (regs_t, even, aligned_t), (l, i)) =
              (zeroed t regs_t, refl, aligned_t, l)
          ended (stop why, t) (trap, regs_t, (l, i)) = (trap, zeroed t regs_t, refl, l)
