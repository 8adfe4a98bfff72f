-- ===== src/Gdb/Runlen.antt =====
-- libgdb/util.c: `gdb_decode_runlen`, with its buffer. `capacity` is the size of the allocation,
-- `nrem` the counter of the bytes left, a `size_t` that passes below 0 before the buffer grows.
use rvvp.Base.{
  ℕ, zero, suc, ◌+◌, ◌-◌, ◌%◌, ◌^◌, Bool, false, Option, none, some, List, [], ◌∷◌, ◌++◌, length,
  ltb, leb, ◌==◌, if◌then◌else◌,
}
use rvvp.Base.Int.{ℤ, pos, negsuc, ◌-ℤ◌}
use rvvp.Gdb.Text.{Try, ret, fail, null, overrun, to_int, ◌>>=◌, ◌>>◌, xassert}

abbrev pub runlen_char : ℕ
runlen_char = b'*'

abbrev pub runlen_off : ℕ
runlen_off = 29

abbrev pub runlen_step : ℕ
runlen_step = 32

-- `runlen` is -1 while no repetition is open.
pub record Decoder : Type 0 where
  pub runlen : ℤ
  pub out : List ℕ
  pub nrem : ℕ
  pub capacity : ℕ

abbrev pub closed : ℤ → Bool
closed (pos n) = false
closed (negsuc n) = n == 0

-- `runlen >= 0 && runlen <= CHAR_MAX`
abbrev pub is_char : ℤ → Bool
is_char (pos n) = leb n 127
is_char (negsuc n) = false

abbrev pub to_char : ℤ → ℕ
to_char (pos n) = n
to_char (negsuc n) = 255 - n

-- `if (nrem-- == 0) { … }`
unfoldable pub reserve : Decoder → Decoder
reserve s =
    if s.nrem == 0
    then record s {
      nrem = ((s.nrem + 2 ^ 64 - 1) % 2 ^ 64 + runlen_step) % 2 ^ 64;
      capacity = length s.out + runlen_step;
    }
    else record s { nrem = s.nrem - 1 }

-- One round of the inner loop.
unfoldable pub write : Decoder → Try Decoder
unfolding reserve
write s =
    let s' = reserve s in
    (do
      xassert (is_char s.runlen)
      if ltb (length s.out) s'.capacity
          then ret (record s' { out = s.out ++ to_char s.runlen ∷ [] })
          else fail overrun)

unfoldable pub write_times : ℕ → Decoder → Try Decoder
write_times zero s = ret s
write_times (suc j) s = write s >>= write_times j

-- The rounds that a count byte asks for; `err` if it is not positive.
abbrev pub positive : ℤ → Try ℕ
positive (pos zero) = fail null
positive (pos (suc n)) = ret (suc n)
positive (negsuc n) = fail null

-- `runlen = -1` behind the inner loop.
abbrev pub finish : Try Decoder → Try Decoder
finish m = m >>= λ s'. ret (record s' { runlen = negsuc 0 })

-- One round of the outer loop, at the byte `c` behind `prev`.
unfoldable pub round : Decoder → Option ℕ → ℕ → Try Decoder
unfolding write_times
round s prev c =
    if c == runlen_char
    then elim prev [ none ↦ fail null | some p ↦ ret (record s { runlen = to_int p }) ]
    else if closed s.runlen
    then finish (write_times 1 (record s { runlen = to_int c }))
    else (do n ← positive (to_int c -ℤ pos runlen_off); finish (write_times n s))

unfoldable pub decode_from : Decoder → Option ℕ → List ℕ → Try (List ℕ)
decode_from s prev [] = ret s.out
decode_from s prev (c ∷ cs) = round s prev c >>= λ s'. decode_from s' (some c) cs

unfoldable pub gdb_decode_runlen : List ℕ → Try (List ℕ)
unfolding decode_from
gdb_decode_runlen cs =
    decode_from (record { runlen = negsuc 0; out = []; nrem = length cs; capacity = length cs })
      none cs
