-- ===== src/Instr/Factory.antt =====
-- instr.cpp: `InstructionFactory`. An `int` immediate is held as the 32 bits of a word.
use rvvp.Base.{ℕ, ◌*◌, ◌/◌, ◌^◌, bit_and, bit_or}
use rvvp.Instr.Word.{shl}

-- A register number in its field.
abbrev register : ℕ → ℕ → ℕ
register r k = shl (bit_and r 0x1f) k

-- The expression that the functions of one format share, with the opcode and the function fields that
-- each has.
unfoldable pub r_form : ℕ → ℕ → ℕ → ℕ → ℕ → ℕ → ℕ
r_form op f3 f7 rd rs1 rs2 =
    bit_or
      (bit_or (bit_or (bit_or (bit_or (register rd 7) (register rs1 15)) (register rs2 20)) (op))
        (shl f3 12))
      (shl f7 25)

unfoldable pub i_form : ℕ → ℕ → ℕ → ℕ → ℕ → ℕ
i_form op f3 rd rs1 imm =
    bit_or
      (bit_or (bit_or (bit_or (shl (bit_and imm 4095) 20) (register rd 7)) (register rs1 15)) (op))
      (shl f3 12)

unfoldable pub shift_form : ℕ → ℕ → ℕ → ℕ → ℕ → ℕ
shift_form f3 f7 rd rs1 shamt =
    bit_or
      (bit_or
        (bit_or (bit_or (bit_or (register rd 7) (register rs1 15)) (shl (bit_and shamt 63) 20))
          (19))
        (shl f3 12))
      (shl f7 25)

unfoldable pub s_form : ℕ → ℕ → ℕ → ℕ → ℕ → ℕ
s_form op f3 rs1 rs2 imm =
    bit_or
      (bit_or
        (bit_or
          (bit_or (bit_or (shl (bit_and imm 0b11111) 7) (shl (bit_and imm (0b1111111 * 2 ^ 5)) 20))
            (register rs1 15))
          (register rs2 20))
        (op))
      (shl f3 12)

unfoldable pub b_form : ℕ → ℕ → ℕ → ℕ → ℕ
b_form f3 rs1 rs2 imm =
    bit_or
      (bit_or
        (bit_or
          (bit_or
            (bit_or (bit_or (shl (bit_and imm 0b11110) 7) (bit_and imm (2 ^ 11) / 2 ^ 4))
              (bit_or (shl (bit_and imm (0b111111 * 2 ^ 5)) 20) (shl (bit_and imm (2 ^ 12)) 19)))
            (register rs1 15))
          (register rs2 20))
        (99))
      (shl f3 12)

abbrev pub add : ℕ → ℕ → ℕ → ℕ
add = r_form 51 0 0

abbrev pub and : ℕ → ℕ → ℕ → ℕ
and = r_form 51 7 0

abbrev pub or : ℕ → ℕ → ℕ → ℕ
or = r_form 51 6 0

abbrev pub xor : ℕ → ℕ → ℕ → ℕ
xor = r_form 51 4 0

abbrev pub sub : ℕ → ℕ → ℕ → ℕ
sub = r_form 51 0 32

abbrev pub addw : ℕ → ℕ → ℕ → ℕ
addw = r_form 0x3b 0 0

abbrev pub subw : ℕ → ℕ → ℕ → ℕ
subw = r_form 0x3b 0 32

abbrev pub lw : ℕ → ℕ → ℕ → ℕ
lw = i_form 3 2

abbrev pub ld : ℕ → ℕ → ℕ → ℕ
ld = i_form 3 3

abbrev pub flw : ℕ → ℕ → ℕ → ℕ
flw = i_form 7 2

abbrev pub fld : ℕ → ℕ → ℕ → ℕ
fld = i_form 7 3

abbrev pub addi : ℕ → ℕ → ℕ → ℕ
addi = i_form 19 0

abbrev pub andi : ℕ → ℕ → ℕ → ℕ
andi = i_form 19 7

abbrev pub jalr : ℕ → ℕ → ℕ → ℕ
jalr = i_form 103 0

abbrev pub addiw : ℕ → ℕ → ℕ → ℕ
addiw = i_form 0x1b 0

abbrev pub sw : ℕ → ℕ → ℕ → ℕ
sw = s_form 35 2

abbrev pub sd : ℕ → ℕ → ℕ → ℕ
sd = s_form 35 3

abbrev pub fsw : ℕ → ℕ → ℕ → ℕ
fsw = s_form 39 2

abbrev pub fsd : ℕ → ℕ → ℕ → ℕ
fsd = s_form 39 3

abbrev pub srli : ℕ → ℕ → ℕ → ℕ
srli = shift_form 5 0

abbrev pub srai : ℕ → ℕ → ℕ → ℕ
srai = shift_form 5 32

abbrev pub slli : ℕ → ℕ → ℕ → ℕ
slli = shift_form 1 0

abbrev pub beq : ℕ → ℕ → ℕ → ℕ
beq = b_form 0

abbrev pub bne : ℕ → ℕ → ℕ → ℕ
bne = b_form 1

abbrev pub ebreak : ℕ
ebreak = 1048691

unfoldable pub lui : ℕ → ℕ → ℕ
lui rd imm = bit_or (bit_or (bit_and imm (1048575 * 2 ^ 12)) (register rd 7)) (55)

unfoldable pub jal : ℕ → ℕ → ℕ
jal rd imm = bit_or (bit_or 111 (register rd 7)) (
    bit_or
      (bit_or (bit_or (bit_and imm (0b11111111 * 2 ^ 12)) (shl (bit_and imm (2 ^ 11)) 9))
        (shl (bit_and imm 0b11111111110) 20))
      (shl (bit_and imm (2 ^ 20)) 11))
