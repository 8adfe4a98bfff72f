-- ===== src/Spmp/Region.antt =====
-- spmp.h: `check_matching` and `find_matching_entry`.
use rvvp.Base.{
  ℕ, zero, suc, ◌+◌, ◌-◌, ◌*◌, ◌/◌, ◌%◌, ◌^◌, Bool, true, false, not, ◌&&◌, ◌||◌, ltb, leb, ◌==◌,
  if◌then◌else◌, bit_and,
}
use rvvp.Base.Bits.{bit_not}
use rvvp.Spmp.Config.{
  SpmpCsrs, cfg_a, cfg_of, switched, addrmatch_off, addrmatch_tor, addrmatch_napot,
}

-- SPMP_MATCHING_YES, NO and PARTIAL
pub data Matching : Type 0 where
  yes_match no_match partial_match : Matching

-- The addresses from `start_addr` up to, and without, `end_addr`.
pub record Region : Type 0 where
  pub start_addr : ℕ
  pub end_addr : ℕ

unfoldable pub check_matching : ℕ → ℕ → Region → Matching
check_matching addr end r =
    if leb r.start_addr addr && ltb end r.end_addr
    then yes_match
    else if (leb r.start_addr addr && ltb addr r.end_addr)
        || (leb r.start_addr end && ltb end r.end_addr)
    then partial_match
    else no_match

-- The number of the lowest bit from `j` on that is 0, if it is one of the next `n`, else `j + n`.
unfoldable pub zero_bit : ℕ → ℕ → ℕ → ℕ
zero_bit zero j val = j
zero_bit (suc n) j val =
    let later = zero_bit n (suc j) val in if val / 2 ^ j % 2 == 0 then j else later

-- `1 << k` of an `int`, widened to 64 bits. The sign bit is extended; from 32 on, where C++ leaves
-- it undefined, the shift counts modulo 32, as the instruction of the x86 does.
unfoldable pub int_bit : ℕ → ℕ
int_bit k = if k % 32 == 31 then 2 ^ 64 - 2 ^ 31 else 2 ^ (k % 32)

-- The range of a NAPOT entry from its address register.
unfoldable pub napot_region : ℕ → Region
napot_region val =
    let size = int_bit (zero_bit 32 0 val + 1) in
    let start = bit_and val (bit_not 64 (size - 1)) * 2 ^ 2 % 2 ^ 64 in
    record { start_addr = start; end_addr = (size * 2 ^ 2 + start) % 2 ^ 64 }

-- A register shifted by two stays a 32-bit word; the four bytes of NA4 are added in 64 bits.
unfoldable pub tor_region : SpmpCsrs → ℕ → Region
tor_region c i = record {
  start_addr = if i == 0 then 0 else c.spmpaddr (i - 1) * 2 ^ 2 % 2 ^ 32;
  end_addr = c.spmpaddr i * 2 ^ 2 % 2 ^ 32;
}

unfoldable pub na4_region : SpmpCsrs → ℕ → Region
na4_region c i = record {
  start_addr = c.spmpaddr i * 2 ^ 2 % 2 ^ 32;
  end_addr = c.spmpaddr i * 2 ^ 2 % 2 ^ 32 + 4;
}

-- The locals that the loop leaves: how it ended, `ii`, `cfg` and the region computed last.
pub record Found : Type 0 where
  pub partial : Bool
  pub nentry : ℕ
  pub cfg : ℕ
  pub region : Region

-- The range of an entry of kind `a`, if it takes part: it is on, and not an empty TOR range.
unfoldable pub takes_part : SpmpCsrs → ℕ → Bool
takes_part c i =
    not (cfg_a (cfg_of c i) == addrmatch_off)
    && switched c i
    && not (
        cfg_a (cfg_of c i) == addrmatch_tor
        && leb (tor_region c i).end_addr (tor_region c i).start_addr)

-- The variables of the region behind entry `i`, which entries that are off leave as they were.
unfoldable pub region_of : SpmpCsrs → ℕ → Region → Region
region_of c i old =
    if cfg_a (cfg_of c i) == addrmatch_off || not (switched c i)
    then old
    else if cfg_a (cfg_of c i) == addrmatch_tor
    then tor_region c i
    else if cfg_a (cfg_of c i) == addrmatch_napot
    then napot_region (c.spmpaddr i)
    else na4_region c i

unfoldable pub match_entry : SpmpCsrs → ℕ → ℕ → ℕ → Matching
match_entry c addr end i =
    if takes_part c i
    then check_matching addr end (region_of c i (record { start_addr = 0; end_addr = 0 }))
    else no_match

-- The loop from entry `i` on, with `n` entries left and the variables as `s` has them.
unfoldable pub scan : SpmpCsrs → ℕ → ℕ → ℕ → ℕ → Found → Found
scan c addr end zero i s = s
scan c addr end (suc n) i s =
    let now : Found = record {
      partial = false;
      nentry = i;
      cfg = cfg_of c i;
      region = region_of c i s.region;
    } in
    let later = scan c addr end n (suc i) (record now { nentry = suc i }) in
    elim (match_entry c addr end i) [
      | yes_match ↦ now
      | partial_match ↦ record now { partial = true }
      | no_match ↦ later
    ]

-- `addr & ~0x3ULL`
abbrev pub word_of : ℕ → ℕ
word_of addr = bit_and addr (bit_not 64 3)

-- `find_matching_entry`; `start` holds the variables before they are written.
unfoldable pub find_matching_entry : SpmpCsrs → ℕ → ℕ → Found → Found
find_matching_entry c addr sz start =
    let end = (addr + sz + 2 ^ 64 - 1) % 2 ^ 64 in
    scan c (word_of addr) (word_of end) 64 0 (record start { partial = false; nentry = 0 })
