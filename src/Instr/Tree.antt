-- ===== src/Instr/Tree.antt =====
-- Nested switches on the fields of an instruction, as in `decode_normal`, and what they decide.
use rvvp.Base.{ℕ, Bool, true, false, List, [], ◌∷◌, ◌==◌, if◌then◌else◌, bit_and}
use rvvp.Instr.Word.{bit_slice}
use rvvp.Instr.Mapping.{Mapping, undef}
use rvvp.Instr.Codes.{Code, code_rv32}

-- core_defs.h: `enum Architecture`
pub data Architecture : Type 0 where
  rv32 rv64 rv128 : Architecture

-- `arch == RV32`
abbrev pub is_rv32 : Architecture → Bool
is_rv32 rv32 = true
is_rv32 _ = false

-- The fields that the decoder switches on, by their highest and lowest bits.
pub data Field : Type 0 where
  f_opcode f_funct2 f_funct3 f_funct5 f_funct6 f_funct7 f_funct12 f_rs2 : Field

abbrev pub upper : Field → ℕ
upper f_opcode = 6
upper f_funct2 = 26
upper f_funct3 = 14
upper f_funct5 = 31
upper f_funct6 = 31
upper f_funct7 = 31
upper f_funct12 = 31
upper f_rs2 = 24

abbrev pub lower : Field → ℕ
lower f_opcode = 0
lower f_funct2 = 25
lower f_funct3 = 12
lower f_funct5 = 27
lower f_funct6 = 26
lower f_funct7 = 25
lower f_funct12 = 20
lower f_rs2 = 20

-- `opcode()`, `funct3()` and the like.
abbrev pub field : Field → ℕ → ℕ
field f instr = bit_slice instr (upper f) (lower f)

pub data Tree : Type 0 where
  undefined : Tree
  matched : Code → Mapping → Tree
  test : Field → ℕ → Tree → Tree → Tree

-- MATCH_AND_RETURN_INSTR
abbrev pub known : Mapping → Tree
known m = matched (code_rv32 m) m

pub record Case : Type 0 where
  pub value : ℕ
  pub then_ : Tree

abbrev pub case : ℕ → Tree → Case
case value tree = record { value = value; then_ = tree }

-- A switch on a field, with the default behind the cases.
abbrev pub switch : Field → List Case → Tree → Tree
switch f [] default = default
switch f (c ∷ cs) default = test f c.value c.then_ (switch f cs default)

-- MATCH_AND_RETURN_INSTR2
abbrev pub match_and_return : ℕ → Code → Mapping → Mapping
match_and_return instr c m = if bit_and instr c.mask == c.encoding then m else undef

-- What the tests return for a word.
unfoldable pub run : ℕ → Tree → Mapping
run instr undefined = undef
run instr (matched c m) = match_and_return instr c m
run instr (test f v yes_tree no_tree) =
    let found = run instr yes_tree in
    let passed = run instr no_tree in if field f instr == v then found else passed
