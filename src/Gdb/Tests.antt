-- ===== src/Gdb/Tests.antt =====
-- The functions of libgdb at concrete packets.
use rvvp.Base.{ℕ, ◌≤◌, ◌≡◌, refl, ◌≢◌, ◌==◌, ◌&&◌, some, List, [], ◌∷◌, ◌++◌, length, arith}
use rvvp.Base.Int.{negsuc, ◌+ℤ◌, ◌-ℤ◌}
use rvvp.Gdb.Text.{ret, fail, overrun, ◌>>=◌}
use rvvp.Gdb.Checksum.{packet, calc_csum, hex_digit, print_hex2, gdb_is_valid, sum}
use rvvp.Gdb.Response.{gdb_serialize, kind_to_char, gdbf_packet, gdb_serialize-gdb_is_valid}
use rvvp.Gdb.Escape.{escape, gdb_unescape, gdb_unescape-escape, gdb_unescape_returns}
use rvvp.Gdb.Runlen.{gdb_decode_runlen, round, write}
use rvvp.Gdb.Runs.{Run, encode, expand, gdb_decode_runlen-encode}
use rvvp.Gdb.Buffer.{gdb_decode_runlen-ne-overrun}

-- "OK"
abbrev ok_text : List ℕ
ok_text = b'O' ∷ b'K' ∷ []

-- $OK#9a
serialized :
    gdb_serialize packet (some ok_text) ≡ ret (b'$' ∷ b'O' ∷ b'K' ∷ b'#' ∷ b'9' ∷ b'a' ∷ [])
unfolding gdb_serialize kind_to_char calc_csum print_hex2 ◌+ℤ◌
serialized = refl

gdb_serialize-gdb_is_valid_example :
    (gdb_serialize packet (some ok_text)
      ≡ ret (b'$' ∷ ok_text ++ b'#' ∷ hex_digit 9 ∷ hex_digit 10 ∷ []))
    × ((d' e' : ℕ)
        → (gdbf_packet b'$' ok_text d' e' >>= gdb_is_valid)
          ≡ ret (d' == hex_digit 9 && e' == hex_digit 10))
unfolding sum
gdb_serialize-gdb_is_valid_example = gdb_serialize-gdb_is_valid ok_text (omega arith)

-- One byte 0xf0.
negative : calc_csum (0xf0 ∷ []) ≡ negsuc 15
unfolding calc_csum ◌+ℤ◌
negative = refl

-- "a}#"
gdb_unescape-escape_example :
    gdb_unescape (escape (b'a' ∷ b'}' ∷ b'#' ∷ [])) ≡ ret (b'a' ∷ b'}' ∷ b'#' ∷ [])
gdb_unescape-escape_example = gdb_unescape-escape (b'a' ∷ b'}' ∷ b'#' ∷ [])

gdb_unescape_returns_example :
    (r : List ℕ) × (gdb_unescape (b'}' ∷ b'}' ∷ b'a' ∷ []) ≡ ret r) × (length r ≤ 3)
gdb_unescape_returns_example = gdb_unescape_returns (b'}' ∷ b'}' ∷ b'a' ∷ [])

-- "0" four times, "x" once: 0* x
abbrev runs : List Run
runs = record { char = b'0'; extra = 3 } ∷ record { char = b'x'; extra = 0 } ∷ []

decoded :
    gdb_decode_runlen (b'0' ∷ b'*' ∷ 0x20 ∷ b'x' ∷ []) ≡ ret (b'0' ∷ b'0' ∷ b'0' ∷ b'0' ∷ b'x' ∷ [])
unfolding gdb_decode_runlen round write ◌-ℤ◌
decoded = refl

gdb_decode_runlen-encode_example : gdb_decode_runlen (encode runs) ≡ ret (expand runs)
gdb_decode_runlen-encode_example = gdb_decode_runlen-encode runs (omega arith)

gdb_decode_runlen-ne-overrun_example : gdb_decode_runlen (b'0' ∷ b'*' ∷ b'~' ∷ []) ≢ fail overrun
gdb_decode_runlen-ne-overrun_example = gdb_decode_runlen-ne-overrun (b'0' ∷ b'*' ∷ b'~' ∷ [])
