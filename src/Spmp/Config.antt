-- ===== src/Spmp/Config.antt =====
-- spmp.h: the registers that `GenericSPMP` reads, and the fields of an entry's configuration.
use rvvp.Base.{ℕ, ◌*◌, ◌/◌, ◌%◌, ◌^◌, Bool, bit_and, bit_or}
use rvvp.Base.Bits.{test_bit, truth}

-- The registers of the core: spmpcfg0 to 15, spmpaddr0 to 63 and spmpswitch0 and 1, of 32 bits
-- each, the mode of satp, mstatus.sum, and the privilege level that the core runs at.
pub record SpmpCsrs : Type 0 where
  pub spmpcfg : ℕ → ℕ
  pub spmpaddr : ℕ → ℕ
  pub spmpswitch : ℕ → ℕ
  pub satp_mode : ℕ
  pub sum : Bool
  pub prv : ℕ

abbrev pub spmp_entries : ℕ
spmp_entries = 64

-- The fields R0, W0, X0, A0 and S0 of a configuration.
abbrev pub cfg_r : ℕ → Bool
cfg_r cfg = test_bit cfg 0

abbrev pub cfg_w : ℕ → Bool
cfg_w cfg = test_bit cfg 1

abbrev pub cfg_x : ℕ → Bool
cfg_x cfg = test_bit cfg 2

abbrev pub cfg_a : ℕ → ℕ
cfg_a cfg = cfg / 2 ^ 3 % 2 ^ 2

abbrev pub cfg_s : ℕ → Bool
cfg_s cfg = test_bit cfg 7

-- ADDRMATCH_OFF, TOR, NA4 and NAPOT
abbrev pub addrmatch_off : ℕ
addrmatch_off = 0

abbrev pub addrmatch_tor : ℕ
addrmatch_tor = 1

abbrev pub addrmatch_na4 : ℕ
addrmatch_na4 = 2

abbrev pub addrmatch_napot : ℕ
addrmatch_napot = 3

-- The configuration of entry `i`: four entries share a register.
abbrev pub cfg_of : SpmpCsrs → ℕ → ℕ
cfg_of c i = c.spmpcfg (i / 4) / 2 ^ (i % 4 * 8)

-- Entry `i` is switched on.
abbrev pub switched : SpmpCsrs → ℕ → Bool
switched c i = truth (bit_and (bit_or (c.spmpswitch 0) (c.spmpswitch 1 * 2 ^ 32)) (2 ^ i))
