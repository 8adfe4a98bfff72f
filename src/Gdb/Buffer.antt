-- ===== src/Gdb/Buffer.antt =====
-- The growing buffer of `gdb_decode_runlen` is never overrun.
use rvvp.Base.{
  ℕ, zero, suc, ◌≡◌, ◌≢◌, Option, none, some, List, [], ◌∷◌, ◌==◌, inl, inr, Bool-cases, arith,
}
use rvvp.Base.Int.{ℤ, pos, negsuc, ◌-ℤ◌}
use rvvp.Gdb.Text.{Try, ret, fail, null, overrun, to_int, ◌>>=◌}
use rvvp.Gdb.Runlen.{
  Decoder, closed, is_char, write, write_times, positive, finish, round, decode_from,
  gdb_decode_runlen, runlen_char,
}
use rvvp.Gdb.Runs.{Fits, write-ok}

-- A call that returns leaves a decoder that fits, and no call overruns the buffer.
abbrev Safe : Try Decoder → Type 0
Safe (ret s) = Fits s
Safe (fail e) = e ≢ overrun

bind-Safe :
    (m : Try Decoder) (f : Decoder → Try Decoder)
    → Safe m
    → ((s : Decoder) → Fits s → Safe (f s))
    → Safe (m >>= f)
bind-Safe (ret s) f h k = k s h
bind-Safe (fail e) f h k = h

write-Safe : (s : Decoder) → Fits s → Safe (write s)
write-Safe s fits = elim (Bool-cases (is_char s.runlen)) [
  | inl char ↦ let (e, fits') = write-ok s fits char in rw e fits'
  | inr other ↦ unfold write in rw other (λ h. cc h)
]

write_times-Safe : (n : ℕ) (s : Decoder) → Fits s → Safe (write_times n s)
unfolding write_times
write_times-Safe zero s fits = fits
write_times-Safe (suc n) s fits =
    bind-Safe (write s) (write_times n) (write-Safe s fits) (write_times-Safe n)

finish-Safe : (m : Try Decoder) → Safe m → Safe (finish m)
finish-Safe (ret s) h = h
finish-Safe (fail e) h = h

count-Safe : (z : ℤ) (s : Decoder) → Fits s → Safe (positive z >>= λ n. finish (write_times n s))
count-Safe (pos zero) s fits = λ h. cc h
count-Safe (pos (suc n)) s fits = finish-Safe _ (write_times-Safe (suc n) s fits)
count-Safe (negsuc n) s fits = λ h. cc h

star-Safe :
    (s : Decoder) (prev : Option ℕ)
    → Fits s
    → Safe (elim prev [ none ↦ fail null | some p ↦ ret (record s { runlen = to_int p }) ])
star-Safe s none fits = λ h. cc h
star-Safe s (some p) fits = fits

round-Safe : (s : Decoder) (prev : Option ℕ) (c : ℕ) → Fits s → Safe (round s prev c)
unfolding round
round-Safe s prev c fits = elim (Bool-cases (c == runlen_char)) [
  | inl star ↦ rw star (star-Safe s prev fits)
  | inr plain ↦ elim (Bool-cases (closed s.runlen)) [
    | inl idle ↦ rw (plain, idle) (finish-Safe _ (write_times-Safe 1 _ fits))
    | inr counting ↦ rw (plain, counting) (count-Safe (to_int c -ℤ pos 29) s fits)
  ]
]

decode_from-ne-overrun :
    (s : Decoder) (prev : Option ℕ) (cs : List ℕ) → Fits s → decode_from s prev cs ≢ fail overrun
unfolding decode_from
decode_from-ne-overrun s prev [] fits h = cc h
decode_from-ne-overrun s prev (c ∷ cs) fits h =
    after (round s prev c) (round-Safe s prev c fits) h
      (λ s'. decode_from-ne-overrun s' (some c) cs)
  where
    after :
        (m : Try Decoder)
        → Safe m
        → (m >>= λ s'. decode_from s' (some c) cs) ≡ fail overrun
        → ((s' : Decoder) → Fits s' → decode_from s' (some c) cs ≢ fail overrun)
        → ⊥
    after (ret s') fits' e ih = ih s' fits' e
    after (fail e) ne e' ih = ne (cc e')

-- On any input the decoder writes inside the buffer as it is allocated at the time, also where the
-- counter of the bytes left passes below 0 and the buffer grows.
pub gdb_decode_runlen-ne-overrun : (cs : List ℕ) → gdb_decode_runlen cs ≢ fail overrun
unfolding gdb_decode_runlen
gdb_decode_runlen-ne-overrun cs = decode_from-ne-overrun _ none cs (omega arith)
