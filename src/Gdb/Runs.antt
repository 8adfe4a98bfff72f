-- ===== src/Gdb/Runs.antt =====
-- `gdb_decode_runlen` against the protocol's description of run-length encoding.
use mathlib.Core.List.{append-nil, append_assoc}
use rvvp.Base.{
  ℕ, zero, suc, ◌+◌, ◌<◌, ◌≡◌, ◌≢◌, refl, sym, ap, ◌∙◌, true, false, Option, none, some, List, [],
  ◌∷◌, ◌++◌, length, length-append, replicate, ◌==◌, if◌then◌else◌, arith,
}
use native.Mathlib.Decide.{ℕ_discrete}
use rvvp.Base.Int.{ℤ, pos, negsuc, ◌-ℤ◌}
use rvvp.Gdb.Text.{ret, to_int}
use rvvp.Gdb.Runlen.{
  Decoder, closed, is_char, to_char, reserve, write, write_times, positive, round, decode_from,
  gdb_decode_runlen, runlen_char,
}

-- The bytes written and the counter add up to the allocation.
abbrev pub Fits : Decoder → Type 0
Fits s = s.capacity ≡ length s.out + s.nrem

-- The state behind a write.
abbrev pub written : Decoder → Decoder
written s = let s' = reserve s in record s' { out = s.out ++ to_char s.runlen ∷ [] }

pub write-ok :
    (s : Decoder)
    → Fits s
    → is_char s.runlen ≡ true
    → (write s ≡ ret (written s)) × Fits (written s)
unfolding write reserve
write-ok s fits ok_char =
    let longer = length-append s.out (to_char s.runlen ∷ []) in (ground arith, ground arith)

written_runlen : (s : Decoder) → (written s).runlen ≡ s.runlen
unfolding reserve
written_runlen s = ground arith

write_times-ok :
    (n : ℕ) (s : Decoder)
    → Fits s
    → is_char s.runlen ≡ true
    → (s' : Decoder) × (write_times n s ≡ ret s')
      × Fits s'
      × (s'.out ≡ s.out ++ replicate n (to_char s.runlen))
unfolding write_times
write_times-ok zero s fits c = (s, refl, fits, sym (append-nil s.out))
write_times-ok (suc n) s fits c =
    let (e, fits') = write-ok s fits c in
    let same = written_runlen s in
    let (s', e', fits'', out) = write_times-ok n (written s) fits' (rw same c) in
    (
      s',
      rw e e',
      fits'',
      out
          ∙ append_assoc s.out (to_char s.runlen ∷ []) (replicate n (to_char (written s).runlen))
          ∙ ap (λ (z : ℤ). s.out ++ to_char s.runlen ∷ replicate n (to_char z)) same,
    )

-- A run of the protocol: a character, and how often it is repeated after its first appearance.
pub record Run : Type 0 where
  pub char : ℕ
  pub extra : ℕ

-- The character is ASCII and not '*'; the count byte, from 30 on, is ASCII and not '*'.
abbrev pub IsRun : Run → Type 0
IsRun r = (r.char < 128) × (r.char ≢ b'*') × (r.extra + 29 < 128) × (r.extra + 29 ≢ b'*')

abbrev pub AreRuns : List Run → Type 0
AreRuns [] = Unit
AreRuns (r ∷ rs) = IsRun r × AreRuns rs

pub expand : List Run → List ℕ
expand [] = []
expand (r ∷ rs) = replicate (suc r.extra) r.char ++ expand rs

abbrev pub encode_run : Run → List ℕ → List ℕ
encode_run r rest = if r.extra == 0 then r.char ∷ rest else r.char ∷ b'*' ∷ (r.extra + 29) ∷ rest

pub encode : List Run → List ℕ
encode [] = []
encode (r ∷ rs) = encode_run r (encode rs)

abbrev Idle : Decoder → Type 0
Idle s = Fits s × (s.runlen ≡ negsuc 0)

-- A character on its own is written once.
round-char :
    (s : Decoder) (prev : Option ℕ) (c : ℕ)
    → Idle s
    → c < 128
    → c ≢ b'*'
    → (s' : Decoder) × (round s prev c ≡ ret s') × Idle s' × (s'.out ≡ s.out ++ c ∷ [])
unfolding round
round-char s prev c idle ascii plain =
    let open_s : Decoder = record s { runlen = to_int c } in
    let e : to_int c ≡ pos c = ground arith in
    let (s', w, fits, out) = write_times-ok 1 open_s idle.0 (rw e (ground arith)) in
    let star : (c == runlen_char) ≡ false = ground arith in
    (
      record s' { runlen = negsuc 0 },
      rw (star, idle.1, w),
      (fits, refl),
      out ∙ ap (λ (z : ℤ). s.out ++ to_char z ∷ []) e,
    )

round-star :
    (s : Decoder) (p : ℕ) → p < 128 → round s (some p) b'*' ≡ ret (record s { runlen = pos p })
unfolding round
round-star s p h = ground arith

positive_count : (n : ℕ) → 0 < n → n + 29 < 128 → positive (to_int (n + 29) -ℤ pos 29) ≡ ret n
unfolding ◌-ℤ◌
positive_count zero h small = absurd (omega arith)
positive_count (suc n) h small =
    let e : to_int (suc n + 29) -ℤ pos 29 ≡ pos (suc n) = ground arith in rw e

-- A count byte writes the open character that often.
round-count :
    (s : Decoder) (prev : Option ℕ) (p n : ℕ)
    → Fits s
    → s.runlen ≡ pos p
    → p < 128
    → 0 < n
    → n + 29 < 128
    → n + 29 ≢ b'*'
    → (s' : Decoder) × (round s prev (n + 29) ≡ ret s')
      × Idle s'
      × (s'.out ≡ s.out ++ replicate n p)
unfolding round
round-count s prev p n fits e ascii positive_n small plain =
    let (s', w, fits', out) = write_times-ok n s fits (rw e (ground arith)) in
    let star : (n + 29 == runlen_char) ≡ false = ground arith in
    let opened : closed s.runlen ≡ false = rw e in
    let count = positive_count n positive_n small in
    (
      record s' { runlen = negsuc 0 },
      rw (star, opened, count, w),
      (fits', refl),
      out ∙ ap (λ (z : ℤ). s.out ++ replicate n (to_char z)) e,
    )

decode_step :
    (s s' : Decoder) (prev : Option ℕ) (c : ℕ) (cs : List ℕ)
    → round s prev c ≡ ret s'
    → decode_from s prev (c ∷ cs) ≡ decode_from s' (some c) cs
unfolding decode_from
decode_step s s' prev c cs e = rw e

-- A run is written as often as it says, whatever follows.
decode_from-encode_run :
    (s : Decoder) (prev : Option ℕ) (r : Run) (rest : List ℕ)
    → Idle s
    → IsRun r
    → (s' : Decoder) × (prev' : Option ℕ) × (decode_from s prev (encode_run r rest)
        ≡ decode_from s' prev' rest)
      × Idle s'
      × (s'.out ≡ s.out ++ replicate (suc r.extra) r.char)
decode_from-encode_run s prev r rest idle run =
    let (s1, e1, idle1, out1) = round-char s prev r.char idle run.0 run.1 in
    let first = λ (cs : List ℕ). decode_step s s1 prev r.char cs e1 in
    elim (ℕ_discrete r.extra 0) [
      | yes single ↦
          let one : (r.extra == 0) ≡ true = ground arith in
          (s1, some r.char, rw one (first rest), idle1, rw single out1)
      | no many ↦
          let more : (r.extra == 0) ≡ false = ground arith in
          let held : Decoder = record s1 { runlen = pos r.char } in
          let star = round-star s1 r.char run.0 in
          let (s2, e2, idle2, out2) =
            round-count held (some b'*') r.char r.extra idle1.0 refl run.0 (omega arith) run.2
              run.3 in
          (
            s2,
            some (r.extra + 29),
            rw more (
                first (b'*' ∷ (r.extra + 29) ∷ rest)
                ∙ decode_step s1 held (some r.char) b'*' ((r.extra + 29) ∷ rest) star
                ∙ decode_step held s2 (some b'*') (r.extra + 29) rest e2),
            idle2,
            out2
                ∙ ap (λ (o : List ℕ). o ++ replicate r.extra r.char) out1
                ∙ append_assoc s.out (r.char ∷ []) (replicate r.extra r.char),
          )
    ]

decode_from-encode :
    (s : Decoder) (prev : Option ℕ) (rs : List Run)
    → Idle s
    → AreRuns rs
    → decode_from s prev (encode rs) ≡ ret (s.out ++ expand rs)
unfolding encode expand
decode_from-encode s prev [] idle h = unfold decode_from in ap ret (sym (append-nil s.out))
decode_from-encode s prev (r ∷ rs) idle (run, h) =
    let (s', prev', e, idle', out) = decode_from-encode_run s prev r (encode rs) idle run in
    e
    ∙ decode_from-encode s' prev' rs idle' h
    ∙ ap ret (
        ap (λ (o : List ℕ). o ++ expand rs) out
        ∙ append_assoc s.out (replicate (suc r.extra) r.char) (expand rs))

-- Runs of ASCII characters other than '*', whose count bytes are ASCII and not '*', are decoded
-- from their encoding to their characters, each as often as its run says.
pub gdb_decode_runlen-encode :
    (rs : List Run) → AreRuns rs → gdb_decode_runlen (encode rs) ≡ ret (expand rs)
unfolding gdb_decode_runlen
gdb_decode_runlen-encode rs h = decode_from-encode _ none rs (omega arith, refl) h
