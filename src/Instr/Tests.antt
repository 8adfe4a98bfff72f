-- ===== src/Instr/Tests.antt =====
-- The decoder and the expansion of compressed instructions at concrete words.
use rvvp.Base.{◌-◌, ◌^◌, arith, ◌≡◌, ◌↔◌, refl, some}
use rvvp.Instr.Mapping.{addi, addiw}
use rvvp.Instr.Tree.{rv32, rv64}
use rvvp.Instr.Decode.{decode_normal}
use rvvp.Instr.Reach.{Matches}
use rvvp.Instr.Table.{code_on, decode_normal_iff}
use rvvp.Instr.Fields.{i_imm, j_imm}
use rvvp.Instr.RoundTrip.{immediates_read_back}
use rvvp.Instr.Word.{asr}
use rvvp.Instr.Factory.{i_form, jal}
use rvvp.Instr.Compressed.{decode_compressed, quadrant_1}
use rvvp.Instr.Expand.{decode_and_expand_compressed, expand_compressed}
use rvvp.Instr.Expansion.{as_encoded, decode_and_expand_compressed-decode_normal}

decode_normal_iff_example :
    (decode_normal rv32 0x00a50513 ≡ addi) ↔ Matches (code_on rv32 addi) 0x00a50513
decode_normal_iff_example = decode_normal_iff rv32 0x00a50513 addi (λ e. cc e)

-- c.addiw a0, 1
c_addiw_word : decode_and_expand_compressed rv64 0x2505 ≡ some (0x00150513, addiw)
unfolding decode_and_expand_compressed decode_compressed expand_compressed quadrant_1 i_form asr
c_addiw_word = refl

decode_and_expand_compressed-decode_normal_example :
    decode_normal rv64 0x00150513 ≡ as_encoded addiw
decode_and_expand_compressed-decode_normal_example =
    decode_and_expand_compressed-decode_normal rv64 0x2505 0x00150513 addiw c_addiw_word (λ e. cc e)

-- An offset of -4, as JALR and JAL have it.
immediates_read_back_example :
    (i_imm (i_form 103 0 1 2 (2 ^ 32 - 4)) ≡ 2 ^ 32 - 4) × (j_imm (jal 1 (2 ^ 32 - 4)) ≡ 2 ^ 32 - 4)
immediates_read_back_example =
    immediates_read_back 103 0 1 2 (2 ^ 32 - 4) (omega arith) (omega arith)
