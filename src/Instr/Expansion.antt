-- ===== src/Instr/Expansion.antt =====
-- The expansion of a compressed instruction against the decoder.
use rvvp.Base.{
  ℕ, ◌≡◌, ◌≢◌, ◌∙◌, ◌↔◌, ◌&&◌, ◌<◌, refl, sym, Bool, true, false, none, some, Option-cases, inl,
  inr, ltb, ◌==◌, if◌then◌else◌, arith,
}
use mathlib.Core.Path.{subst}
use rvvp.Base.Bits.{bit_and_mask}
use rvvp.Instr.Mapping.{
  Mapping, undef, add, addi, addiw, addw, and, andi, beq, bne, fld, flw, fsd, fsw, jalr, ld, lui,
  lw, or, sd, slli, srai, srli, sub, subw, sw, xor,
}
use rvvp.Instr.Tree.{Architecture, is_rv32}
use rvvp.Instr.Decode.{decode_normal}
use rvvp.Instr.Fields.{c_uimm, c_imm, c_rd, c_rd_small, c_rs2_small, is_compressed, quadrant}
use rvvp.Instr.Immediates.{
  c_addi4spn_nzuimm, c_addi16sp_nzimm, c_lui_nzimm, c_lwsp_uimm, c_ldsp_uimm,
}
use rvvp.Instr.Factory
use rvvp.Instr.Compressed.{
  Compressed, decode_compressed, quadrant_0, quadrant_1, quadrant_2, c_illegal, c_lq, c_lqsp, c_sq,
  c_sqsp, c_reserved, c_nop, c_add, c_mv, c_and, c_or, c_xor, c_sub, c_addw, c_subw, c_lw, c_ld,
  c_flw, c_fld, c_sw, c_sd, c_fsw, c_fsd, c_addi4spn, c_addi, c_jal, c_addiw, c_li, c_addi16sp,
  c_lui, c_slli, c_srli, c_srai, c_andi, c_j, c_beqz, c_bnez, c_lwsp, c_ldsp, c_flwsp, c_fldsp,
  c_swsp, c_sdsp, c_fswsp, c_fsdsp, c_ebreak, c_jr, c_jalr,
}
use rvvp.Instr.Expand.{expand_compressed, decode_and_expand_compressed}
use rvvp.Instr.Formats.{
  r_decodes, i_decodes, s_decodes, b_decodes, shift_decodes, lui_decodes, jal_decodes,
  ebreak_decodes,
}

-- The instruction whose encoding stands for the one that is returned: C.ADDIW is expanded to the word
-- of ADDI.
abbrev pub as_encoded : Mapping → Mapping
as_encoded addiw = addi
as_encoded m = m

-- The word of an expansion has the encoding of its instruction.
abbrev Decodes : Architecture → ℕ × Mapping → Type 0
Decodes arch result = decode_normal arch result.0 ≡ as_encoded result.1

guarded :
    (arch : Architecture) (instr : ℕ) (reserved : Bool) (result : ℕ × Mapping)
    → (reserved ≡ false → Decodes arch result)
    → (if reserved then (instr, undef) else result).1 ≢ undef
    → Decodes arch (if reserved then (instr, undef) else result)
guarded arch instr true result h some_m = absurd (some_m refl)
guarded arch instr false result h some_m = h refl

expand_compressed-Decodes :
    (instr : ℕ) (op : Compressed) (arch : Architecture)
    → (expand_compressed instr op arch).1 ≢ undef
    → Decodes arch (expand_compressed instr op arch)
unfolding expand_compressed
expand_compressed-Decodes instr c_illegal arch some_m = absurd (some_m refl)
expand_compressed-Decodes instr c_lq arch some_m = absurd (some_m refl)
expand_compressed-Decodes instr c_lqsp arch some_m = absurd (some_m refl)
expand_compressed-Decodes instr c_sq arch some_m = absurd (some_m refl)
expand_compressed-Decodes instr c_sqsp arch some_m = absurd (some_m refl)
expand_compressed-Decodes instr c_reserved arch some_m = absurd (some_m refl)
expand_compressed-Decodes instr c_nop arch some_m = r_decodes arch add 51 0 0 refl refl refl _ _ _
expand_compressed-Decodes instr c_add arch some_m = r_decodes arch add 51 0 0 refl refl refl _ _ _
expand_compressed-Decodes instr c_mv arch some_m = r_decodes arch add 51 0 0 refl refl refl _ _ _
expand_compressed-Decodes instr c_and arch some_m = r_decodes arch and 51 7 0 refl refl refl _ _ _
expand_compressed-Decodes instr c_or arch some_m = r_decodes arch or 51 6 0 refl refl refl _ _ _
expand_compressed-Decodes instr c_xor arch some_m = r_decodes arch xor 51 4 0 refl refl refl _ _ _
expand_compressed-Decodes instr c_sub arch some_m = r_decodes arch sub 51 0 32 refl refl refl _ _ _
expand_compressed-Decodes instr c_addw arch some_m =
    r_decodes arch addw 0x3b 0 0 refl refl refl _ _ _
expand_compressed-Decodes instr c_subw arch some_m =
    r_decodes arch subw 0x3b 0 32 refl refl refl _ _ _
expand_compressed-Decodes instr c_lw arch some_m = i_decodes arch lw 3 2 refl refl refl _ _ _
expand_compressed-Decodes instr c_ld arch some_m = i_decodes arch ld 3 3 refl refl refl _ _ _
expand_compressed-Decodes instr c_flw arch some_m = i_decodes arch flw 7 2 refl refl refl _ _ _
expand_compressed-Decodes instr c_fld arch some_m = i_decodes arch fld 7 3 refl refl refl _ _ _
expand_compressed-Decodes instr c_sw arch some_m = s_decodes arch sw 35 2 refl refl refl _ _ _
expand_compressed-Decodes instr c_sd arch some_m = s_decodes arch sd 35 3 refl refl refl _ _ _
expand_compressed-Decodes instr c_fsw arch some_m = s_decodes arch fsw 39 2 refl refl refl _ _ _
expand_compressed-Decodes instr c_fsd arch some_m = s_decodes arch fsd 39 3 refl refl refl _ _ _
expand_compressed-Decodes instr c_addi4spn arch some_m =
    guarded arch instr (c_addi4spn_nzuimm instr == 0)
      (Factory.addi (c_rs2_small instr) 2 (c_addi4spn_nzuimm instr), addi)
      (λ _. i_decodes arch addi 19 0 refl refl refl _ _ _) some_m
expand_compressed-Decodes instr c_addi arch some_m = i_decodes arch addi 19 0 refl refl refl _ _ _
expand_compressed-Decodes instr c_jal arch some_m = jal_decodes arch _ _
expand_compressed-Decodes instr c_addiw arch some_m =
    guarded arch instr (c_rd instr == 0)
      (Factory.addi (c_rd instr) (c_rd instr) (c_imm instr), addiw)
      (λ _. i_decodes arch addi 19 0 refl refl refl _ _ _) some_m
expand_compressed-Decodes instr c_li arch some_m = i_decodes arch addi 19 0 refl refl refl _ _ _
expand_compressed-Decodes instr c_addi16sp arch some_m =
    guarded arch instr (c_addi16sp_nzimm instr == 0)
      (Factory.addi 2 2 (c_addi16sp_nzimm instr), addi)
      (λ _. i_decodes arch addi 19 0 refl refl refl _ _ _) some_m
expand_compressed-Decodes instr c_lui arch some_m =
    guarded arch instr (c_lui_nzimm instr == 0) (Factory.lui (c_rd instr) (c_lui_nzimm instr), lui)
      (λ _. lui_decodes arch _ _) some_m
expand_compressed-Decodes instr c_slli arch some_m =
    guarded arch instr (is_rv32 arch && ltb 31 (c_uimm instr))
      (Factory.slli (c_rd instr) (c_rd instr) (c_uimm instr), slli)
      (shift_decodes arch slli 1 0 refl refl refl _ _ (c_uimm instr)) some_m
expand_compressed-Decodes instr c_srli arch some_m =
    guarded arch instr (is_rv32 arch && ltb 31 (c_uimm instr))
      (Factory.srli (c_rd_small instr) (c_rd_small instr) (c_uimm instr), srli)
      (shift_decodes arch srli 5 0 refl refl refl _ _ (c_uimm instr)) some_m
expand_compressed-Decodes instr c_srai arch some_m =
    guarded arch instr (is_rv32 arch && ltb 31 (c_uimm instr))
      (Factory.srai (c_rd_small instr) (c_rd_small instr) (c_uimm instr), srai)
      (shift_decodes arch srai 5 32 refl refl refl _ _ (c_uimm instr)) some_m
expand_compressed-Decodes instr c_andi arch some_m = i_decodes arch andi 19 7 refl refl refl _ _ _
expand_compressed-Decodes instr c_j arch some_m = jal_decodes arch _ _
expand_compressed-Decodes instr c_beqz arch some_m = b_decodes arch beq 0 refl refl refl _ _ _
expand_compressed-Decodes instr c_bnez arch some_m = b_decodes arch bne 1 refl refl refl _ _ _
expand_compressed-Decodes instr c_lwsp arch some_m =
    guarded arch instr (c_rd instr == 0) (Factory.lw (c_rd instr) 2 (c_lwsp_uimm instr), lw)
      (λ _. i_decodes arch lw 3 2 refl refl refl _ _ _) some_m
expand_compressed-Decodes instr c_ldsp arch some_m =
    guarded arch instr (c_rd instr == 0) (Factory.ld (c_rd instr) 2 (c_ldsp_uimm instr), ld)
      (λ _. i_decodes arch ld 3 3 refl refl refl _ _ _) some_m
expand_compressed-Decodes instr c_flwsp arch some_m = i_decodes arch flw 7 2 refl refl refl _ _ _
expand_compressed-Decodes instr c_fldsp arch some_m = i_decodes arch fld 7 3 refl refl refl _ _ _
expand_compressed-Decodes instr c_swsp arch some_m = s_decodes arch sw 35 2 refl refl refl _ _ _
expand_compressed-Decodes instr c_sdsp arch some_m = s_decodes arch sd 35 3 refl refl refl _ _ _
expand_compressed-Decodes instr c_fswsp arch some_m = s_decodes arch fsw 39 2 refl refl refl _ _ _
expand_compressed-Decodes instr c_fsdsp arch some_m = s_decodes arch fsd 39 3 refl refl refl _ _ _
expand_compressed-Decodes instr c_ebreak arch some_m = ebreak_decodes arch
expand_compressed-Decodes instr c_jr arch some_m =
    guarded arch instr (c_rd instr == 0) (Factory.jalr 0 (c_rd instr) 0, jalr)
      (λ _. i_decodes arch jalr 103 0 refl refl refl _ _ _) some_m
expand_compressed-Decodes instr c_jalr arch some_m = i_decodes arch jalr 103 0 refl refl refl _ _ _

-- A word that `decode_and_expand_compressed` accepts becomes a word that `decode_normal` takes for the
-- instruction that was returned, on every architecture; only for C.ADDIW it takes it for ADDI.
pub decode_and_expand_compressed-decode_normal :
    (arch : Architecture) (instr instr' : ℕ) (m : Mapping)
    → decode_and_expand_compressed arch instr ≡ some (instr', m)
    → m ≢ undef
    → decode_normal arch instr' ≡ as_encoded m
unfolding decode_and_expand_compressed
decode_and_expand_compressed-decode_normal arch instr instr' m h some_m =
    elim (Option-cases (decode_compressed instr arch)) [
      | inl thrown ↦ cc (rw (decode_and_expand_compressed, thrown) at h)
      | inr (op, e) ↦
          let same : ◌≡◌ {A = ℕ × Mapping} (expand_compressed instr op arch) (instr', m) =
            cc (rw (decode_and_expand_compressed, e) at h) in
          subst (λ (r : ℕ × Mapping). r.1 ≢ undef → Decodes arch r) same
            (expand_compressed-Decodes instr op arch) some_m
    ]

quadrant_lt : (instr : ℕ) → quadrant instr < 4
quadrant_lt instr = omega (arith, bit_and_mask instr 2)

-- A switch on the quadrant that throws in the last.
last_thrown :
    (q : ℕ) (op0 op1 op2 default : Compressed)
    → q < 4
    → ((if q == 0
          then some op0
          else if q == 1
          then some op1
          else if q == 2
          then some op2
          else if q == 3
          then none
          else some default)
        ≡ none)
      ↔ (ltb q 3 ≡ false)
last_thrown q op0 op1 op2 default small = ground arith

thrown_iff :
    (instr : ℕ) (arch : Architecture)
    → (decode_compressed instr arch ≡ none) ↔ (is_compressed instr ≡ false)
unfolding decode_compressed
thrown_iff instr arch =
    last_thrown (quadrant instr) (quadrant_0 instr arch) (quadrant_1 instr arch)
      (quadrant_2 instr arch) c_illegal (quadrant_lt instr)

-- It throws exactly for the words that are no compressed instructions: the exception for an unhandled
-- one at the end of `expand_compressed` is not reached.
pub decode_and_expand_compressed-none_iff :
    (arch : Architecture) (instr : ℕ)
    → (decode_and_expand_compressed arch instr ≡ none) ↔ (is_compressed instr ≡ false)
unfolding decode_and_expand_compressed
decode_and_expand_compressed-none_iff arch instr =
    elim (Option-cases (decode_compressed instr arch)) [
      | inl thrown ↦ (
        λ _. (thrown_iff instr arch).0 thrown,
        λ _. rw (decode_and_expand_compressed, thrown) refl,
      )
      | inr (op, e) ↦ (
        λ h. cc (rw (decode_and_expand_compressed, e) at h),
        λ h. cc (sym e ∙ (thrown_iff instr arch).1 h),
      )
    ]
