-- ===== src/Instr/Formats.antt =====
-- What `decode_normal` says of the words that the factory builds.
use rvvp.Base.{
  ℕ, ◌^◌, ◌≤◌, ◌≡◌, ◌∙◌, ap, refl, sym, false, ◌&&◌, ltb, ◌==◌, if◌then◌else◌, bit_and, bit_or,
  arith,
}
use mathlib.Core.Path.{subst}
use rvvp.Base.Bits.{bit_and_assoc, bit_and-pow, bit_and-zero, test_bit-eq-false}
use rvvp.Instr.Word.{shl}
use rvvp.Instr.Mapping.{Mapping, lui, jal, ebreak}
use rvvp.Instr.Index.{index}
use rvvp.Instr.Codes.{Code, bits, code_rv32}
use rvvp.Instr.Tree.{Architecture, rv32, rv64, rv128, is_rv32}
use rvvp.Instr.Decode.{decode_normal}
use rvvp.Instr.Reach.{Matches}
use rvvp.Instr.Table.{code_on, decode_normal_iff}
use rvvp.Instr.Factory
use rvvp.Instr.Factory.{r_form, i_form, s_form, b_form, shift_form}
use rvvp.Instr.Encodings.{
  r_form-bit_and, i_form-bit_and, s_form-bit_and, b_form-bit_and, shift_form-bit_and, lui-bit_and,
  jal-bit_and,
}

-- A mapping that is not `undef`.
abbrev Known : Mapping → Type 0
Known m = (index m == 0) ≡ false

matching :
    (arch : Architecture) (m : Mapping) (c : Code) (w : ℕ)
    → Known m
    → code_on arch m ≡ c
    → Matches c w
    → decode_normal arch w ≡ m
matching arch m c w some_m same fit =
    (decode_normal_iff arch w m (λ none_m. cc (some_m, ap (λ n. index n == 0) none_m))).1
      (ap (λ (d : Code). bit_and w d.mask) same ∙ fit ∙ ap (λ (d : Code). d.encoding) (sym same))

-- The mask and the encoding are the same on all architectures.
abbrev Shared : Mapping → Type 0
Shared m = code_on rv32 m ≡ code_rv32 m

decodes :
    (arch : Architecture) (m : Mapping) (w mask encoding : ℕ)
    → Known m
    → Shared m
    → code_rv32 m ≡ bits mask encoding
    → bit_and w mask ≡ encoding
    → decode_normal arch w ≡ m
decodes arch m w mask encoding some_m same code fit =
    matching arch m (bits mask encoding) w some_m (on arch ∙ code) fit
  where
    on : (arch : Architecture) → code_on arch m ≡ code_rv32 m
    on rv32 = same
    on rv64 = refl
    on rv128 = refl

module _ (arch : Architecture) (m : Mapping) where
  pub r_decodes :
      (op f3 f7 : ℕ)
      → Known m
      → Shared m
      → code_rv32 m
        ≡ bits 0xfe00707f (bit_and (bit_or (bit_or op (shl f3 12)) (shl f7 25)) 0xfe00707f)
      → (rd rs1 rs2 : ℕ) → decode_normal arch (r_form op f3 f7 rd rs1 rs2) ≡ m
  r_decodes op f3 f7 some_m same code rd rs1 rs2 =
      decodes arch m (r_form op f3 f7 rd rs1 rs2) 0xfe00707f _ some_m same code
        (r_form-bit_and 0xfe00707f (omega arith) op f3 f7 rd rs1 rs2 refl refl refl)

  pub i_decodes :
      (op f3 : ℕ)
      → Known m
      → Shared m
      → code_rv32 m ≡ bits 0x707f (bit_and (bit_or op (shl f3 12)) 0x707f)
      → (rd rs1 imm : ℕ) → decode_normal arch (i_form op f3 rd rs1 imm) ≡ m
  i_decodes op f3 some_m same code rd rs1 imm =
      decodes arch m (i_form op f3 rd rs1 imm) 0x707f _ some_m same code
        (i_form-bit_and 0x707f (omega arith) op f3 rd rs1 imm refl refl refl)

  pub s_decodes :
      (op f3 : ℕ)
      → Known m
      → Shared m
      → code_rv32 m ≡ bits 0x707f (bit_and (bit_or op (shl f3 12)) 0x707f)
      → (rs1 rs2 imm : ℕ) → decode_normal arch (s_form op f3 rs1 rs2 imm) ≡ m
  s_decodes op f3 some_m same code rs1 rs2 imm =
      decodes arch m (s_form op f3 rs1 rs2 imm) 0x707f _ some_m same code
        (s_form-bit_and 0x707f (omega arith) op f3 rs1 rs2 imm refl refl refl refl)

  pub b_decodes :
      (f3 : ℕ)
      → Known m
      → Shared m
      → code_rv32 m ≡ bits 0x707f (bit_and (bit_or 99 (shl f3 12)) 0x707f)
      → (rs1 rs2 imm : ℕ) → decode_normal arch (b_form f3 rs1 rs2 imm) ≡ m
  b_decodes f3 some_m same code rs1 rs2 imm =
      decodes arch m (b_form f3 rs1 rs2 imm) 0x707f _ some_m same code
        (b_form-bit_and 0x707f (omega arith) f3 rs1 rs2 imm refl refl refl refl refl refl)

  -- An amount that is above 31 has no place on RV32.
  pub shift_decodes :
      (f3 f7 : ℕ)
      → Known m
      → code_on rv32 m
        ≡ bits 0xfe00707f (bit_and (bit_or (bit_or 19 (shl f3 12)) (shl f7 25)) 0xfe00707f)
      → code_rv32 m
        ≡ bits 0xfc00707f (bit_and (bit_or (bit_or 19 (shl f3 12)) (shl f7 25)) 0xfc00707f)
      → (rd rs1 n : ℕ) → (is_rv32 arch && ltb 31 n) ≡ false
      → decode_normal arch (shift_form f3 f7 rd rs1 n) ≡ m
  shift_decodes f3 f7 some_m narrow wide rd rs1 n fits = at arch refl
    where
      built : ℕ
      built = shift_form f3 f7 rd rs1 n

      wide_word :
          bit_and built 0xfc00707f ≡ bit_and (bit_or (bit_or 19 (shl f3 12)) (shl f7 25)) 0xfc00707f
      wide_word =
          shift_form-bit_and 0xfc00707f (omega arith) f3 f7 rd rs1 n refl refl
            (bit_and_assoc n 63 0xfc0 ∙ bit_and-zero n)

      narrow_word :
          n ≤ 31
          → bit_and built 0xfe00707f
            ≡ bit_and (bit_or (bit_or 19 (shl f3 12)) (shl f7 25)) 0xfe00707f
      narrow_word le = shift_form-bit_and 0xfe00707f (omega arith) f3 f7 rd rs1 n refl refl (
          bit_and_assoc n 63 0xfe0
          ∙ bit_and-pow n 5
          ∙ ap (λ b. if b then 2 ^ 5 else 0) (test_bit-eq-false 5 n 5 (omega arith) (omega arith)))

      at : (a : Architecture) → a ≡ arch → decode_normal arch built ≡ m
      at rv32 e =
          let le : n ≤ 31 =
            ground
              (arith, subst (λ (b : Architecture). (is_rv32 b && ltb 31 n) ≡ false) (sym e) fits) in
          subst (λ (b : Architecture). decode_normal b built ≡ m) e
            (matching rv32 m _ built some_m narrow (narrow_word le))
      at rv64 e =
          subst (λ (b : Architecture). decode_normal b built ≡ m) e
            (matching rv64 m _ built some_m wide wide_word)
      at rv128 e =
          subst (λ (b : Architecture). decode_normal b built ≡ m) e
            (matching rv128 m _ built some_m wide wide_word)

pub lui_decodes : (arch : Architecture) (rd imm : ℕ) → decode_normal arch (Factory.lui rd imm) ≡ lui
lui_decodes arch rd imm = decodes arch lui _ 0x7f 55 refl refl refl (lui-bit_and rd imm)

pub jal_decodes : (arch : Architecture) (rd imm : ℕ) → decode_normal arch (Factory.jal rd imm) ≡ jal
jal_decodes arch rd imm = decodes arch jal _ 0x7f 111 refl refl refl (jal-bit_and rd imm)

pub ebreak_decodes : (arch : Architecture) → decode_normal arch Factory.ebreak ≡ ebreak
ebreak_decodes arch = decodes arch ebreak 1048691 _ _ refl refl refl refl
