-- ===== src/Aplic/State.antt =====
-- aplic.h: `APLIC`, its registers and the state of its sources. Registers are named by their offset in
-- the range of a domain.
use rvvp.Base.{
  ℕ, ◌+◌, ◌-◌, ◌*◌, ◌/◌, ◌%◌, ◌^◌, Bool, false, true, not, ◌&&◌, ◌||◌, ltb, ◌==◌, if◌then◌else◌,
  List, [], bit_and, bit_or,
}
use rvvp.Base.Bits.{truth, bit_not}

abbrev pub imsic_hart0_m_ifile : ℕ
imsic_hart0_m_ifile = 0x31000000

abbrev pub imsic_hart0_s_ifile : ℕ
imsic_hart0_s_ifile = 0x31000000 + 4096

abbrev pub aplic_m_domain : ℕ
aplic_m_domain = 0

abbrev pub domaincfg : ℕ
domaincfg = 0x0000

abbrev pub sourcecfg : ℕ
sourcecfg = 0x0004

abbrev pub mmsiaddrcfg : ℕ
mmsiaddrcfg = 0x1bc0

abbrev pub mmsiaddrcfgh : ℕ
mmsiaddrcfgh = 0x1bc4

abbrev pub smsiaddrcfg : ℕ
smsiaddrcfg = 0x1bc8

abbrev pub smsiaddrcfgh : ℕ
smsiaddrcfgh = 0x1bcc

abbrev pub setip : ℕ
setip = 0x1c00

abbrev pub setipnum : ℕ
setipnum = 0x1cdc

abbrev pub in_clrip : ℕ
in_clrip = 0x1d00

abbrev pub clripnum : ℕ
clripnum = 0x1ddc

abbrev pub setie : ℕ
setie = 0x1e00

abbrev pub setienum : ℕ
setienum = 0x1edc

abbrev pub clrie : ℕ
clrie = 0x1f00

abbrev pub clrienum : ℕ
clrienum = 0x1fdc

abbrev pub setipnum_le : ℕ
setipnum_le = 0x2000

abbrev pub setipnum_be : ℕ
setipnum_be = 0x2004

abbrev pub genmsi : ℕ
genmsi = 0x3000

abbrev pub target : ℕ
target = 0x3004

-- The `source_mode`s that the code tests for.
abbrev pub inactive : ℕ
inactive = 0

abbrev pub edge1 : ℕ
edge1 = 4

abbrev pub edge0 : ℕ
edge0 = 5

abbrev pub level0 : ℕ
level0 = 7

-- The words of the registers by register, domain and index, the enable and pending bits by domain and
-- word, and the messages that were sent, the last one first. A wait on `e_run` is woken where `notified`
-- is set.
pub record Aplic : Type 0 where
  pub regs : ℕ → ℕ → ℕ → ℕ
  pub ie_reg : ℕ → ℕ → ℕ
  pub ip_reg : ℕ → ℕ → ℕ
  pub sent : List (ℕ × ℕ)
  pub notified : Bool

abbrev pub put : ℕ → ℕ → ℕ → ℕ → (ℕ → ℕ → ℕ → ℕ) → ℕ → ℕ → ℕ → ℕ
put reg domain idx value regs r d i =
    if r == reg && (d == domain && i == idx) then value else regs r d i

unfoldable pub set_reg : ℕ → ℕ → ℕ → ℕ → Aplic → Aplic
set_reg reg domain idx value s = record s { regs = put reg domain idx value s.regs }

-- A word of `ie_reg` or `ip_reg`.
abbrev pub put_word : ℕ → ℕ → ℕ → (ℕ → ℕ → ℕ) → ℕ → ℕ → ℕ
put_word domain idx value words d i = if d == domain && i == idx then value else words d i

unfoldable pub set_ip : ℕ → ℕ → ℕ → Aplic → Aplic
set_ip domain idx value s = record s { ip_reg = put_word domain idx value s.ip_reg }

unfoldable pub set_ie : ℕ → ℕ → ℕ → Aplic → Aplic
set_ie domain idx value s = record s { ie_reg = put_word domain idx value s.ie_reg }

unfoldable pub notify : Aplic → Aplic
notify s = record s { notified = true }

-- `(reg >> bit) & mask`
abbrev pub field : ℕ → ℕ → ℕ → ℕ
field reg bit mask = bit_and (reg / 2 ^ bit) mask

-- The constructor's loops, and its addresses for messages.
unfoldable pub initial : Aplic
initial = record {
  regs = λ r d i.
      if r == domaincfg && i == 0
      then bit_or (0x80 * 2 ^ 24) (2 ^ 2)
      else if r == mmsiaddrcfg && (d == aplic_m_domain && i == 0)
      then imsic_hart0_m_ifile / 2 ^ 12
      else if r == smsiaddrcfg && (d == aplic_m_domain && i == 0)
      then imsic_hart0_s_ifile / 2 ^ 12
      else 0;
  ie_reg = λ d i. 0;
  ip_reg = λ d i. 0;
  sent = [];
  notified = false;
}

-- `ip_reg[domain][idx] &= ~BIT(off)`, and the word shown in `setip`.
unfoldable pub drop_pending : ℕ → ℕ → Aplic → Aplic
unfolding set_ip set_reg
drop_pending domain irq_id s =
    let word = bit_and (s.ip_reg domain (irq_id / 32)) (bit_not 32 (2 ^ (irq_id % 32))) in
    set_reg setip domain (irq_id / 32) word (set_ip domain (irq_id / 32) word s)

module _ (number_interrupts : ℕ) where
  -- `irq_id < 1 || irq_id >= NumberInterrupts`
  abbrev pub is_unknown : ℕ → Bool
  is_unknown irq_id = ltb irq_id 1 || not (ltb irq_id number_interrupts)

  unfoldable pub source_is_inactive : ℕ → ℕ → Aplic → Bool
  source_is_inactive domain irq_id s =
      let val = s.regs sourcecfg domain (irq_id - 1) in
      if is_unknown irq_id then true else ltb (field val 0 0x7) edge1 || truth (field val 10 0x1)

  unfoldable pub is_pending_interrupt : ℕ → ℕ → Aplic → Bool
  is_pending_interrupt domain irq_id s =
      if is_unknown irq_id
      then false
      else if not (truth (bit_and (s.ie_reg domain (irq_id / 32)) (2 ^ (irq_id % 32))))
      then false
      else truth (bit_and (s.ip_reg domain (irq_id / 32)) (2 ^ (irq_id % 32)))

  unfoldable pub clear_pending_interrupt : ℕ → ℕ → Aplic → Aplic
  unfolding drop_pending
  clear_pending_interrupt domain irq_id s =
      if is_unknown irq_id then s else drop_pending domain irq_id s
