-- ===== src/Gdb/Escape.antt =====
-- libgdb/util.c: `gdb_unescape`, with the bytes written so far counted against the buffer, which is
-- `strlen(data)` bytes long.
use rvvp.Base.{
  ℕ, ◌+◌, ◌≤◌, ◌<◌, ◌≡◌, refl, sym, ap, ◌∙◌, Bool, true, false, ◌||◌, List, [], ◌∷◌, ◌++◌, bit_xor,
  length, length-append, ltb, ◌==◌, if◌then◌else◌, arith, ◌⊎◌, inl, inr, Bool-cases,
}
use mathlib.Core.List.{append-nil, append_assoc}
use rvvp.Gdb.Text.{Try, ret, fail, overrun, ◌>>=◌}

abbrev pub escape_char : ℕ
escape_char = b'}'

abbrev pub escape_byte : ℕ
escape_byte = 0x20

-- One write, `ndat[nlen++] = c`, into a buffer of `size` bytes of which `out` are written.
abbrev pub put : ℕ → List ℕ → ℕ → Try (List ℕ)
put size out c = if ltb (length out) size then ret (out ++ c ∷ []) else fail overrun

-- The loop, with its flag `esc` and what is written so far.
pub unescape_from : ℕ → Bool → List ℕ → List ℕ → Try (List ℕ)
unescape_from size esc out [] = ret out
unescape_from size esc out (c ∷ cs) = elim (c == escape_char) [
  | true ↦ unescape_from size true out cs
  | false ↦ put size out (if esc then bit_xor c escape_byte else c) >>= λ out'.
      unescape_from size false out' cs
]

unfoldable pub gdb_unescape : List ℕ → Try (List ℕ)
unfolding unescape_from
gdb_unescape cs = unescape_from (length cs) false [] cs

-- The sender's side of the protocol: '#', '$', '*' and '}' travel as '}' and the byte with bit 5
-- flipped.
abbrev pub is_special : ℕ → Bool
is_special c = c == b'#' || c == b'$' || c == b'*' || c == b'}'

pub escape : List ℕ → List ℕ
escape [] = []
escape (c ∷ cs) =
    let rest = escape cs in
    if is_special c then escape_char ∷ bit_xor c escape_byte ∷ rest else c ∷ rest

pub length-le-escape : (cs : List ℕ) → length cs ≤ length (escape cs)
unfolding escape
length-le-escape [] = omega arith
length-le-escape (c ∷ cs) = ground (arith, length-le-escape cs)

special-cases :
    (c : ℕ) → is_special c ≡ true → (c ≡ b'#') ⊎ ((c ≡ b'$') ⊎ ((c ≡ b'*') ⊎ (c ≡ b'}')))
special-cases c h = ground arith

-- A special byte comes back, and is not sent as the escape character.
special_bytes :
    (c : ℕ)
    → is_special c ≡ true
    → (bit_xor (bit_xor c escape_byte) escape_byte ≡ c)
      × ((bit_xor c escape_byte == escape_char) ≡ false)
special_bytes c h = elim (special-cases c h) [
  | inl e ↦ rw e (refl, refl)
  | inr (inl e) ↦ rw e (refl, refl)
  | inr (inr (inl e)) ↦ rw e (refl, refl)
  | inr (inr (inr e)) ↦ rw e (refl, refl)
]

-- The loop at the escape character, and at any other byte where the buffer has room.
at_mark :
    (size : ℕ) (esc : Bool) (out : List ℕ) (c : ℕ) (cs : List ℕ)
    → (c == escape_char) ≡ true
    → unescape_from size esc out (c ∷ cs) ≡ unescape_from size true out cs
unfolding unescape_from
at_mark size esc out c cs h = rw (h, unescape_from)

at_byte :
    (size : ℕ) (esc : Bool) (out : List ℕ) (c : ℕ) (cs : List ℕ)
    → (c == escape_char) ≡ false
    → length out < size
    → unescape_from size esc out (c ∷ cs)
      ≡ unescape_from size false (out ++ (if esc then bit_xor c escape_byte else c) ∷ []) cs
unfolding unescape_from
at_byte size esc out c cs h lt =
    let room : ltb (length out) size ≡ true = ground arith in rw (h, room, unescape_from)

unescape_from-escape :
    (size : ℕ) (out cs : List ℕ)
    → length out + length cs ≤ size
    → unescape_from size false out (escape cs) ≡ ret (out ++ cs)
unfolding escape
unescape_from-escape size out [] h = unfold unescape_from in ap ret (sym (append-nil out))
unescape_from-escape size out (c ∷ cs) h =
    let rest : unescape_from size false (out ++ c ∷ []) (escape cs) ≡ ret (out ++ c ∷ cs) =
      unescape_from-escape size (out ++ c ∷ []) cs (omega (arith, length-append out (c ∷ [])))
      ∙ ap ret (append_assoc out (c ∷ []) cs) in
    elim (Bool-cases (is_special c)) [
      | inl special ↦
          let (back, other) = special_bytes c special in
          rw special (
            at_mark size false out escape_char (bit_xor c escape_byte ∷ escape cs) refl
            ∙ at_byte size true out (bit_xor c escape_byte) (escape cs) other (omega arith)
            ∙ rw back rest)
      | inr plain ↦
          rw plain (at_byte size false out c (escape cs) (ground arith) (omega arith) ∙ rest)
    ]

-- Text that the sender escaped is unescaped to itself, within the buffer that is allocated.
pub gdb_unescape-escape : (cs : List ℕ) → gdb_unescape (escape cs) ≡ ret cs
unfolding gdb_unescape
gdb_unescape-escape cs =
    unescape_from-escape (length (escape cs)) [] cs (omega (arith, length-le-escape cs))

-- The loop with a buffer that has room for the bytes left never writes behind it.
unescape_from_returns :
    (size : ℕ) (esc : Bool) (out cs : List ℕ)
    → length out + length cs ≤ size
    → (r : List ℕ) × (unescape_from size esc out cs ≡ ret r) × (length r ≤ length out + length cs)
unescape_from_returns size esc out [] h = (out, unfold unescape_from in refl, omega arith)
unescape_from_returns size esc out (c ∷ cs) h = elim (Bool-cases (c == escape_char)) [
  | inl mark ↦
      let (r, e, le) = unescape_from_returns size true out cs (omega arith) in
      (r, at_mark size esc out c cs mark ∙ e, omega arith)
  | inr plain ↦
      let d : ℕ = if esc then bit_xor c escape_byte else c in
      let longer : length (out ++ d ∷ []) ≡ length out + 1 =
        omega (arith, length-append out (d ∷ [])) in
      let (r, e, le) = unescape_from_returns size false (out ++ d ∷ []) cs (omega arith) in
      (r, at_byte size esc out c cs plain (omega arith) ∙ e, omega arith)
]

-- Whatever the packet holds, unescaping stays inside its buffer and returns no more bytes than came.
pub gdb_unescape_returns :
    (cs : List ℕ) → (r : List ℕ) × (gdb_unescape cs ≡ ret r) × (length r ≤ length cs)
unfolding gdb_unescape
gdb_unescape_returns cs =
    let (r, e, le) = unescape_from_returns (length cs) false [] cs (omega arith) in
    (r, e, omega arith)
