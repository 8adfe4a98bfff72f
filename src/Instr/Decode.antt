-- ===== src/Instr/Decode.antt =====
-- instr.cpp: `decode_normal`. The switches of the source are a tree of tests, which `run` follows.
mod Integer
mod System
mod Float
use rvvp.Base.{ℕ, List, [], ◌∷◌}
use rvvp.Instr.Mapping.{Mapping, lui, auipc, jal, jalr}
use rvvp.Instr.Parts.{
  op_lui, op_auipc, op_jal, op_jalr, op_lb, op_sb, op_beq, op_addi, op_add, op_fence, op_ecall,
  op_amo, op_addiw, op_addw, op_fmadd_s, op_fadd_s, op_flw, op_fsw, op_fmsub_s, op_fnmsub_s,
  op_fnmadd_s,
}
use rvvp.Instr.Tree.{Architecture, Tree, known, undefined, case, switch, run, f_opcode}
use Integer.*
use System.*
use Float.*

abbrev pub decode_tree : Architecture → Tree
decode_tree arch =
    switch f_opcode
      (case op_lui (known lui)
        ∷ case op_auipc (known auipc)
        ∷ case op_jal (known jal)
        ∷ case op_jalr (known jalr)
        ∷ case op_beq decode_op_beq
        ∷ case op_lb decode_op_lb
        ∷ case op_sb decode_op_sb
        ∷ case op_addi (decode_op_addi arch)
        ∷ case op_addiw decode_op_addiw
        ∷ case op_add decode_op_add
        ∷ case op_addw decode_op_addw
        ∷ case op_fence decode_op_fence
        ∷ case op_ecall decode_op_ecall
        ∷ case op_amo decode_op_amo
        ∷ case op_fmadd_s decode_op_fmadd_s
        ∷ case op_fadd_s decode_op_fadd_s
        ∷ case op_flw decode_op_flw
        ∷ case op_fsw decode_op_fsw
        ∷ case op_fmsub_s decode_op_fmsub_s
        ∷ case op_fnmsub_s decode_op_fnmsub_s
        ∷ case op_fnmadd_s decode_op_fnmadd_s
        ∷ [])
      undefined

unfoldable pub decode_normal : Architecture → ℕ → Mapping
decode_normal arch instr = run instr (decode_tree arch)
