-- ===== src/Instr/Table.antt =====
-- `decode_normal` against the table of masks and encodings.
use rvvp.Base.{
  ℕ, ◌≡◌, ◌≢◌, ◌↔◌, refl, sym, ap, ◌∙◌, Bool, true, ◌||◌, every, every_sound, ◌==◌, Bool-cases, inl,
  inr, arith,
}
use mathlib.Core.Path.{subst}
use rvvp.Instr.Mapping.{Mapping, undef, slli, srli, srai}
use rvvp.Instr.Index.{index, mappings, nth, nth-index, index_bound}
use rvvp.Instr.Codes.{Code, code_rv32, slli_32, srli_32, srai_32}
use rvvp.Instr.Tree.{Architecture, rv32, rv64, rv128}
use rvvp.Instr.Decode.{decode_tree, decode_normal}
use rvvp.Instr.Reach.{reach, leaves, arrived, Matches, run-Matches, arrived-run, same_code}

-- The mask and encoding of an instruction on an architecture.
abbrev pub code_on : Architecture → Mapping → Code
code_on rv32 slli = slli_32
code_on rv32 srli = srli_32
code_on rv32 srai = srai_32
code_on _ m = code_rv32 m

-- The words of an instruction's code reach that code and that instruction.
leads : Architecture → Mapping → Bool
leads arch m =
    arrived (code_on arch) index (code_on arch m) m (reach (code_on arch m) (decode_tree arch))

table : (arch : Architecture) → every 172 (λ k. k == 0 || leads arch (nth mappings k)) ≡ true
unfolding every reach nth leads arrived same_code
table rv32 = refl
table rv64 = refl
table rv128 = refl

leaves_table : (arch : Architecture) → leaves (code_on arch) (decode_tree arch) ≡ true
unfolding leaves same_code
leaves_table rv32 = refl
leaves_table rv64 = refl
leaves_table rv128 = refl

pub index-injective : (m m' : Mapping) → index m ≡ index m' → m ≡ m'
index-injective m m' e = sym (nth-index m) ∙ ap (nth mappings) e ∙ nth-index m'

past_zero : (k : ℕ) (b : Bool) → (k == 0 || b) ≡ true → k ≢ 0 → b ≡ true
past_zero k b h pos = elim (Bool-cases (k == 0)) [
  | inl none_left ↦ absurd (pos (ground arith))
  | inr some_left ↦ rw some_left at h
]

leads_all : (arch : Architecture) (m : Mapping) → m ≢ undef → leads arch m ≡ true
leads_all arch m some_m =
    past_zero (index m) (leads arch m)
      (subst (λ m'. (index m == 0 || leads arch m') ≡ true) (nth-index m)
        (every_sound 172 (λ k. k == 0 || leads arch (nth mappings k)) (table arch) (index m)
          (index_bound m)))
      (λ z. some_m (index-injective m undef z))

-- `decode_normal` returns an instruction exactly for the words that have its encoding under its mask,
-- where the shifts by an immediate have masks of their own on RV32. So no word has two instructions,
-- and the order of the switches does not matter.
pub decode_normal_iff :
    (arch : Architecture) (instr : ℕ) (m : Mapping)
    → m ≢ undef
    → (decode_normal arch instr ≡ m) ↔ Matches (code_on arch m) instr
unfolding decode_normal leads
decode_normal_iff arch instr m some_m = (
  run-Matches (code_on arch) (decode_tree arch) instr m (leaves_table arch) some_m,
  arrived-run (code_on arch) index (decode_tree arch) instr m
      (reach (code_on arch m) (decode_tree arch)) (λ m' e. index-injective m' m e) refl
      (leads_all arch m some_m),
)
