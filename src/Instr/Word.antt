-- ===== src/Instr/Word.antt =====
-- instr.h: the macros on bits, and the fields and immediates of an `Instruction`. A word of 32 bits is
-- a natural number; an `int32_t` is held as its bits, and `>>` of one keeps the sign.
use rvvp.Base.{ℕ, ◌+◌, ◌-◌, ◌*◌, ◌/◌, ◌%◌, ◌^◌, ltb, if◌then◌else◌, bit_and}

-- `>>` of an `int32_t`: the word is extended by its sign, shifted and cut to 32 bits.
unfoldable pub asr : ℕ → ℕ → ℕ
asr w k = (if ltb w (2 ^ 31) then w else w + (2 ^ 64 - 2 ^ 32)) / 2 ^ k % 2 ^ 32

-- `<<` of a word.
abbrev pub shl : ℕ → ℕ → ℕ
shl w k = w * 2 ^ k % 2 ^ 32

-- BIT_RANGE, and BIT_SLICE of an unsigned word or below the sign.
abbrev pub bit_range : ℕ → ℕ → ℕ → ℕ
bit_range instr upper lower = bit_and instr ((2 ^ (upper - lower + 1) - 1) * 2 ^ lower)

abbrev pub bit_slice : ℕ → ℕ → ℕ → ℕ
bit_slice instr upper lower = bit_range instr upper lower / 2 ^ lower

abbrev pub bit_single : ℕ → ℕ → ℕ
bit_single instr pos = bit_and instr (2 ^ pos)

abbrev pub bit_single_p1 : ℕ → ℕ → ℕ
bit_single_p1 instr pos = bit_single instr pos / 2 ^ pos

abbrev pub bit_single_pn : ℕ → ℕ → ℕ → ℕ
bit_single_pn instr pos new_pos = shl (bit_single_p1 instr pos) new_pos

-- EXTRACT_SIGN_BIT of an `int32_t`.
abbrev pub extract_sign_bit : ℕ → ℕ → ℕ → ℕ
extract_sign_bit instr pos new_pos = asr (shl (bit_single_p1 instr pos) 31) (31 - new_pos)
