-- ===== src/Gdb/Response.antt =====
-- libgdb/response.c: `kind_to_char` and `gdb_serialize`; of parser1.c the folds `gdbf_packet` and
-- `gdbf_acknowledge`, which turn the parsed parts of a packet into a `gdb_packet_t`.
use rvvp.Base.{
  ℕ, ◌/◌, ◌%◌, ◌≡◌, refl, ap, ◌∙◌, ◌&&◌, ◌+◌, ◌<◌, leb, length, length-append, Option, none, some,
  List, [], ◌∷◌, ◌++◌, ◌==◌, if◌then◌else◌, arith,
}
use rvvp.Gdb.Text.{Try, ret, fail, assertion, null_pointer, exit, ◌>>=◌, IsAscii}
use rvvp.Gdb.Checksum.{
  Kind, notify, packet, nack, ack, Packet, calc_csum, print_hex2, gdb_is_valid, sum, hex_digit,
  calc_csum-ascii, print_hex2-byte, gdb_is_valid-ascii, length-print_hex2,
}
use rvvp.Base.Int.{negsuc}

unfoldable pub kind_to_char : Kind → ℕ
kind_to_char notify = b'#'
kind_to_char packet = b'$'
kind_to_char nack = b'-'
kind_to_char ack = b'+'

-- GDB_CSUM_LEN
abbrev pub gdb_csum_len : ℕ
gdb_csum_len = 2

-- `snprintf(serialized, pktlen, …)` with its result tested: the text is whole, or the program exits.
abbrev pub print_within : ℕ → List ℕ → Try (List ℕ)
print_within pktlen printed = if leb pktlen (length printed) then fail exit else ret printed

-- A reply to a whole packet is a single character; other kinds carry text and its checksum.
unfoldable pub gdb_serialize : Kind → Option (List ℕ) → Try (List ℕ)
gdb_serialize nack (some _) = fail assertion
gdb_serialize nack none = ret (kind_to_char nack ∷ [])
gdb_serialize ack (some _) = fail assertion
gdb_serialize ack none = ret (kind_to_char ack ∷ [])
gdb_serialize kind none = fail null_pointer
gdb_serialize kind (some cs) =
    let csum = calc_csum cs in
    let pktlen = length cs + gdb_csum_len + 3 in
    print_within pktlen (kind_to_char kind ∷ cs ++ b'#' ∷ print_hex2 csum)

abbrev pub made : Kind → Option (List ℕ) → ℕ → ℕ → Packet
made kind text csum0 csum1 = record { kind = kind; text = text; csum0 = csum0; csum1 = csum1 }

-- `gdbf_packet`: the kind by the first character, the text between, the characters behind '#'.
unfoldable pub gdbf_packet : ℕ → List ℕ → ℕ → ℕ → Try Packet
gdbf_packet start cs csum0 csum1 =
    if start == b'%'
    then ret (made notify (some cs) csum0 csum1)
    else if start == b'$'
    then ret (made packet (some cs) csum0 csum1)
    else fail assertion

unfoldable pub gdbf_acknowledge : ℕ → Try Packet
gdbf_acknowledge c =
    if c == b'+'
    then ret (made ack none 0 0)
    else if c == b'-'
    then ret (made nack none 0 0)
    else fail assertion

-- For a packet of ASCII text the buffer is large enough: the text is sent whole, between '$' and '#'
-- and the two hexadecimal digits of the sum of its bytes modulo 256. The packet that is folded from
-- this text and any two characters for its checksum is valid exactly if they are the two digits sent.
pub gdb_serialize-gdb_is_valid :
    (cs : List ℕ)
    → IsAscii cs
    → let d = hex_digit (sum cs % 256 / 16) in
      let e = hex_digit (sum cs % 256 % 16) in
      (gdb_serialize packet (some cs) ≡ ret (b'$' ∷ cs ++ b'#' ∷ d ∷ e ∷ []))
      × ((d' e' : ℕ) → (gdbf_packet b'$' cs d' e' >>= gdb_is_valid) ≡ ret (d' == d && e' == e))
unfolding gdb_serialize kind_to_char gdbf_packet
gdb_serialize-gdb_is_valid cs a =
    let d = hex_digit (sum cs % 256 / 16) in
    let e = hex_digit (sum cs % 256 % 16) in
    let digits : print_hex2 (calc_csum cs) ≡ d ∷ e ∷ [] =
      ap print_hex2 (calc_csum-ascii cs a) ∙ print_hex2-byte (sum cs % 256) (omega arith) in
    (
      rw digits (ground (arith, length-append cs (b'#' ∷ d ∷ e ∷ []))),
      λ d' e'. gdb_is_valid-ascii (made packet (some cs) d' e') cs a refl,
    )

-- Where the checksum of the text is negative, from -255 on, the text does not fit and the program
-- exits.
gdb_serialize-negative :
    (cs : List ℕ) {n : ℕ}
    → calc_csum cs ≡ negsuc n
    → n < 255
    → gdb_serialize packet (some cs) ≡ fail exit
unfolding gdb_serialize
gdb_serialize-negative cs {n} negative small =
    let digits = print_hex2 (negsuc n) in
    rw negative (ground (arith, length-print_hex2 n small, length-append cs (b'#' ∷ digits)))

-- The first character that is sent for a packet or an acknowledgement is folded back to its kind;
-- that of a notification, '#', is refused by the fold, which knows notifications by '%'.
kind_to_char-folded :
    (cs : List ℕ) (d e : ℕ)
    → (gdbf_acknowledge (kind_to_char ack) ≡ ret (made ack none 0 0))
      × (gdbf_acknowledge (kind_to_char nack) ≡ ret (made nack none 0 0))
      × (gdbf_packet (kind_to_char packet) cs d e ≡ ret (made packet (some cs) d e))
      × (gdbf_packet (kind_to_char notify) cs d e ≡ fail assertion)
unfolding kind_to_char gdbf_packet gdbf_acknowledge
kind_to_char-folded cs d e = (refl, refl, refl, refl)
