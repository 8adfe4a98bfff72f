-- ===== src/Iss/Alu.antt =====
-- core/rv32/iss.cpp: the operations of C on `int32_t` and `uint32_t` that `exec_step` uses, on the 32
-- bits of a word. A result is cut to 32 bits where it is written to a register.
use rvvp.Base.{ℕ, ◌+◌, ◌-◌, ◌*◌, ◌/◌, ◌%◌, ◌^◌, Bool, ltb, ◌==◌, if◌then◌else◌, ◌&&◌, not, bit_and}
use rvvp.Instr.Word.{asr, shl, bit_range}

abbrev pub word : ℕ → ℕ
word n = n % 2 ^ 32

-- The order of `int32_t`, through the order of the values moved up by 2 ^ 31.
abbrev pub biased : ℕ → ℕ
biased w = word (w + 2 ^ 31)

abbrev pub signed_lt : ℕ → ℕ → Bool
signed_lt a b = ltb (biased a) (biased b)

-- A `bool` as an integer.
abbrev pub bit : Bool → ℕ
bit b = if b then 1 else 0

abbrev pub add32 : ℕ → ℕ → ℕ
add32 a b = word (a + b)

abbrev pub sub32 : ℕ → ℕ → ℕ
sub32 a b = word (a + (2 ^ 32 - b))

-- `RegFile::shamt` of the second operand.
abbrev pub sll : ℕ → ℕ → ℕ
sll a b = shl a (bit_range b 4 0)

abbrev pub srl : ℕ → ℕ → ℕ
srl a b = a / 2 ^ bit_range b 4 0

abbrev pub sra : ℕ → ℕ → ℕ
sra a b = asr a (bit_range b 4 0)

-- A cast of an `int32_t` to 64 bits.
abbrev pub sign_extend : ℕ → ℕ
sign_extend w = if ltb w (2 ^ 31) then w else w + (2 ^ 64 - 2 ^ 32)

abbrev pub mul : ℕ → ℕ → ℕ
mul a b = bit_and (sign_extend a * sign_extend b % 2 ^ 64) 0xFFFFFFFF

-- `(ans & 0xFFFFFFFF00000000) >> 32`
abbrev upper_half : ℕ → ℕ
upper_half ans = bit_and (ans % 2 ^ 64) 0xFFFFFFFF00000000 / 2 ^ 32

abbrev pub mulh : ℕ → ℕ → ℕ
mulh a b = upper_half (sign_extend a * sign_extend b)

abbrev pub mulhu : ℕ → ℕ → ℕ
mulhu a b = upper_half (a * b)

abbrev pub mulhsu : ℕ → ℕ → ℕ
mulhsu a b = upper_half (sign_extend a * b)

-- The absolute value of an `int32_t`, and the word of the opposite number.
abbrev pub magnitude : ℕ → ℕ
magnitude w = if ltb w (2 ^ 31) then w else 2 ^ 32 - w

abbrev pub opposite : ℕ → ℕ
opposite w = word (2 ^ 32 - w)

abbrev pub is_negative : ℕ → Bool
is_negative w = not (ltb w (2 ^ 31))

-- `a / b` and `a % b` of `int32_t`: the quotient is rounded towards 0, and the remainder has the sign
-- of the first.
unfoldable pub quotient : ℕ → ℕ → ℕ
quotient a b =
    let q = magnitude a / magnitude b in
    if is_negative a
    then if is_negative b then q else opposite q
    else if is_negative b
    then opposite q
    else q

unfoldable pub remainder : ℕ → ℕ → ℕ
remainder a b = let r = magnitude a % magnitude b in if is_negative a then opposite r else r

-- The words of -1 and of REG_MIN.
abbrev pub minus_one : ℕ
minus_one = 2 ^ 32 - 1

abbrev pub reg_min : ℕ
reg_min = 2 ^ 31

unfoldable pub div : ℕ → ℕ → ℕ
div a b = if b == 0 then minus_one else if a == reg_min && b == minus_one then a else quotient a b

unfoldable pub divu : ℕ → ℕ → ℕ
divu a b = if b == 0 then minus_one else a / b

unfoldable pub rem : ℕ → ℕ → ℕ
rem a b = if b == 0 then a else if a == reg_min && b == minus_one then 0 else remainder a b

unfoldable pub remu : ℕ → ℕ → ℕ
remu a b = if b == 0 then a else a % b

abbrev pub signed_min : ℕ → ℕ → ℕ
signed_min a b = if signed_lt b a then b else a

abbrev pub signed_max : ℕ → ℕ → ℕ
signed_max a b = if signed_lt a b then b else a
