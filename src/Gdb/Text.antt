-- ===== src/Gdb/Text.antt =====
-- C strings as lists of bytes without the terminator, `char` as a signed byte (the x86 ABI), and
-- how the functions of libgdb fail.
use rvvp.Base.{ℕ, ◌-◌, ◌<◌, Bool, true, false, List, [], ◌∷◌, ltb, if◌then◌else◌}
use rvvp.Base.Int.{ℤ, pos, negsuc}

-- `(int)c` of a `char` whose byte is `c`.
abbrev pub to_int : ℕ → ℤ
to_int c = if ltb c 128 then pos c else negsuc (255 - c)

-- A function returns NULL, stops at an `xassert`, writes behind its buffer, reads through a null
-- pointer, or exits with a message (`errx`).
pub data Fault : Type 0 where
  null assertion overrun null_pointer exit : Fault

pub data Try {ℓ} (A : Type ℓ) : Type ℓ where
  ret : A → Try A
  fail : Fault → Try A

infixl 5 ◌>>=◌ ◌>>◌
abbrev pub ◌>>=◌ {ℓ κ} : {A : Type ℓ} {B : Type κ} → Try A → (A → Try B) → Try B
fail fault >>= k = fail fault
ret x >>= k = k x

abbrev pub ◌>>◌ {ℓ} : {B : Type ℓ} → Try (Unit {0}) → Try B → Try B
m >> k = m >>= λ _. k

abbrev pub xassert : Bool → Try (Unit {0})
xassert true = ret tt
xassert false = fail assertion

-- Every byte is ASCII.
abbrev pub IsAscii : List ℕ → Type 0
IsAscii [] = Unit
IsAscii (c ∷ cs) = (c < 128) × IsAscii cs
