-- ===== src/Gdb/Checksum.antt =====
-- libgdb/util.c: `calc_csum` and `gdb_is_valid`, with the printing of "%.2x" that the latter calls.
use rvvp.Base.{
  ℕ, zero, suc, ◌+◌, ◌-◌, ◌/◌, ◌%◌, ◌^◌, ◌≤◌, ◌<◌, ◌≡◌, ap, ◌∙◌, Bool, true, false, ◌&&◌, Option,
  none, some, List, [], ◌∷◌, length, ltb, ◌==◌, if◌then◌else◌, arith,
}
use rvvp.Base.Int.{ℤ, pos, negsuc, ◌+ℤ◌, sub_ℕ}
use rvvp.Gdb.Text.{to_int, Try, ret, fail, assertion, ◌>>◌, xassert, IsAscii}

-- parser1.h: `gdb_kind_t` and `gdb_packet_t`; the checksum is two characters.
pub data Kind : Type 0 where
  notify packet nack ack : Kind

pub record Packet : Type 0 where
  pub kind : Kind
  pub text : Option (List ℕ)
  pub csum0 : ℕ
  pub csum1 : ℕ

pub csum_from : ℤ → List ℕ → ℤ
csum_from csum [] = csum
csum_from csum (c ∷ cs) = csum_from (csum +ℤ to_int c) cs

-- `%` on `int` rounds towards zero.
abbrev pub rem256 : ℤ → ℤ
rem256 (pos n) = pos (n % 256)
rem256 (negsuc n) = sub_ℕ 0 (suc n % 256)

unfoldable pub calc_csum : List ℕ → ℤ
unfolding csum_from
calc_csum cs = rem256 (csum_from (pos 0) cs)

-- An `int` passed for "%x" is read as `unsigned`.
abbrev pub to_unsigned : ℤ → ℕ
to_unsigned (pos n) = n % 2 ^ 32
to_unsigned (negsuc n) = 2 ^ 32 - 1 - n % 2 ^ 32

abbrev pub hex_digit : ℕ → ℕ
hex_digit d = if ltb d 10 then b'0' + d else b'a' + (d - 10)

-- The digits of `n` in front of `acc`; eight rounds are enough for 32 bits.
pub hex_digits : ℕ → ℕ → List ℕ → List ℕ
hex_digits zero n acc = acc
hex_digits (suc f) n acc =
    let more = hex_digits f (n / 16) (hex_digit (n % 16) ∷ acc) in if n == 0 then acc else more

abbrev pub pad2 : List ℕ → List ℕ
pad2 [] = b'0' ∷ b'0' ∷ []
pad2 (d ∷ []) = b'0' ∷ d ∷ []
pad2 (d ∷ e ∷ ds) = d ∷ e ∷ ds

-- `snprintf(…, "%.2x", v)`
unfoldable pub print_hex2 : ℤ → List ℕ
unfolding hex_digits
print_hex2 v = pad2 (hex_digits 8 (to_unsigned v) [])

abbrev pub same_csum : Packet → List ℕ → Bool
same_csum p (d ∷ e ∷ []) = p.csum0 == d && p.csum1 == e
same_csum p _ = false

abbrev pub valid_text : Packet → Option (List ℕ) → Try Bool
valid_text p none = ret true
valid_text p (some cs) =
    let str = print_hex2 (calc_csum cs) in (do xassert (length str == 2); ret (same_csum p str))

unfoldable pub gdb_is_valid : Packet → Try Bool
gdb_is_valid p = valid_text p p.text

unfoldable pub sum : List ℕ → ℕ
sum [] = 0
sum (c ∷ cs) = c + sum cs

csum_from-ascii : (n : ℕ) (cs : List ℕ) → IsAscii cs → csum_from (pos n) cs ≡ pos (n + sum cs)
unfolding csum_from sum ◌+ℤ◌
csum_from-ascii n [] a = ap pos (omega arith)
csum_from-ascii n (c ∷ cs) a =
    let step : pos n +ℤ to_int c ≡ pos (n + c) = ground arith in
    ap (λ (z : ℤ). csum_from z cs) step ∙ csum_from-ascii (n + c) cs a.1 ∙ ap pos (omega arith)

-- Of ASCII text the checksum is the sum of the bytes modulo 256.
pub calc_csum-ascii : (cs : List ℕ) → IsAscii cs → calc_csum cs ≡ pos (sum cs % 256)
unfolding calc_csum
calc_csum-ascii cs a =
    ap rem256 (csum_from-ascii 0 cs a) ∙ ap (λ (n : ℕ). pos (n % 256)) (omega arith)

-- A byte prints as its two digits.
pub print_hex2-byte :
    (n : ℕ) → n < 256 → print_hex2 (pos n) ≡ hex_digit (n / 16) ∷ hex_digit (n % 16) ∷ []
unfolding print_hex2
print_hex2-byte n h = ground arith

-- A packet with ASCII text is valid exactly if its two characters are the two hexadecimal digits of
-- the sum of the bytes modulo 256; the assertion on the printed length never fails for it.
pub gdb_is_valid-ascii :
    (p : Packet) (cs : List ℕ)
    → IsAscii cs
    → p.text ≡ some cs
    → gdb_is_valid p
      ≡ ret (p.csum0 == hex_digit (sum cs % 256 / 16) && p.csum1 == hex_digit (sum cs % 256 % 16))
unfolding gdb_is_valid
gdb_is_valid-ascii p cs a e =
    let printed : print_hex2 (calc_csum cs)
        ≡ hex_digit (sum cs % 256 / 16) ∷ hex_digit (sum cs % 256 % 16) ∷ [] =
      ap print_hex2 (calc_csum-ascii cs a) ∙ print_hex2-byte (sum cs % 256) (omega arith) in
    rw (e, printed)

hex_digits-length : (f n : ℕ) (acc : List ℕ) → length acc ≤ length (hex_digits f n acc)
unfolding hex_digits
hex_digits-length zero n acc = omega arith
hex_digits-length (suc f) n acc =
    ground (arith, hex_digits-length f (n / 16) (hex_digit (n % 16) ∷ acc))

length-hex_digits : (f n : ℕ) → 256 ≤ n → 3 ≤ length (hex_digits (suc (suc (suc f))) n [])
unfolding hex_digits
length-hex_digits f n h =
    let digits = hex_digit (n / 16 / 16 % 16) ∷ hex_digit (n / 16 % 16) ∷ hex_digit (n % 16) ∷ [] in
    ground (arith, hex_digits-length f (n / 16 / 16 / 16) digits)

length-pad2 : (ds : List ℕ) → 3 ≤ length ds → 2 < length (pad2 ds)
length-pad2 [] h = absurd (omega arith)
length-pad2 (d ∷ []) h = absurd (omega arith)
length-pad2 (d ∷ e ∷ ds) h = h

pub length-print_hex2 : (n : ℕ) → n < 255 → 2 < length (print_hex2 (negsuc n))
unfolding print_hex2
length-print_hex2 n h = length-pad2 _ (length-hex_digits 5 (2 ^ 32 - 1 - n % 2 ^ 32) (omega arith))

-- Where the checksum of the text is negative, from -255 on, the check stops at its assertion.
gdb_is_valid-negative :
    (p : Packet) (cs : List ℕ) {n : ℕ}
    → p.text ≡ some cs
    → calc_csum cs ≡ negsuc n
    → n < 255
    → gdb_is_valid p ≡ fail assertion
unfolding gdb_is_valid
gdb_is_valid-negative p cs {n} e negative small =
    rw (e, negative) (ground (arith, length-print_hex2 n small))
