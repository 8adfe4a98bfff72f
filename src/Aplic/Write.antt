-- ===== src/Aplic/Write.antt =====
-- aplic.h: reads and writes of the registers. A write stores the word and calls the callback of the
-- register; the callbacks act on the pending and enable bits of the machine domain, whichever domain's
-- register was written. Accesses are of whole words.
use rvvp.Base.{ℕ, ◌+◌, ◌^◌, ◌||◌, ltb, ◌==◌, if◌then◌else◌, ◌∷◌, bit_and, bit_or}
use rvvp.Base.Bits.{bit_not}
use rvvp.Core.Result.{Result, ok, check, ◌>>=◌, ◌>>◌}
use rvvp.Aplic.Address.{get_m_target_address}
use rvvp.Aplic.Config.{post_write_domainconfig, post_write_xmsiaddrcfg, post_write_sourcecfg}
use rvvp.Aplic.Pending.{
  post_write_setip, post_write_setipnum, post_write_in_clrip, post_write_clripnum,
}
use rvvp.Aplic.Enable.{post_write_setie, post_write_setienum, post_write_clrie, post_write_clrienum}
use rvvp.Aplic.State.{
  Aplic, aplic_m_domain, domaincfg, sourcecfg, mmsiaddrcfg, mmsiaddrcfgh, smsiaddrcfg, smsiaddrcfgh,
  setip, setipnum, in_clrip, clripnum, setie, setienum, clrie, clrienum, setipnum_le, setipnum_be,
  genmsi, target, set_reg, field, source_is_inactive,
}

-- A transaction of a message, by `isock->b_transport`.
unfoldable pub send : ℕ → ℕ → Aplic → Aplic
send addr msi_data s = record s { sent = (addr, msi_data) ∷ s.sent }

unfoldable pub post_write_setipnum_be : ℕ → ℕ → Aplic → Aplic
unfolding set_reg
post_write_setipnum_be domain idx s = set_reg setipnum_be domain idx 0 s

unfoldable pub post_write_genmsi : ℕ → ℕ → ℕ → Aplic → Result Aplic
unfolding set_reg send
post_write_genmsi number_cores domain idx s =
    let word = bit_and (s.regs genmsi domain idx) (bit_not 32 (2 ^ 12)) in
    let ready = set_reg genmsi domain idx word s in
    get_m_target_address number_cores (field word 18 0x3fff) ready >>= λ addr.
    ok (send addr (field word 0 0x7ff) ready)

unfoldable pub post_write_target : ℕ → ℕ → ℕ → Aplic → Aplic
unfolding set_reg
post_write_target number_interrupts domain idx s =
    set_reg target domain idx
      (if source_is_inactive number_interrupts aplic_m_domain (idx + 1) s
        then 0
        else bit_or (s.regs target domain idx) (2 ^ 11))
      s

-- A read of a register: the callbacks before a read show the bits of the machine domain.
unfoldable pub read : ℕ → ℕ → ℕ → Aplic → Result (ℕ × Aplic)
unfolding set_reg
read reg domain idx s =
    if reg == setip || reg == in_clrip
    then check (ltb idx 32)
      >> ok (s.ip_reg aplic_m_domain idx, set_reg reg domain idx (s.ip_reg aplic_m_domain idx) s)
    else if reg == setie
    then check (ltb idx 32)
      >> ok (s.ie_reg aplic_m_domain idx, set_reg reg domain idx (s.ie_reg aplic_m_domain idx) s)
    else ok (s.regs reg domain idx, s)

module _ (number_cores number_domains number_interrupts : ℕ) where
  -- The callback of a register.
  unfoldable pub post_write : ℕ → ℕ → ℕ → Aplic → Result Aplic
  post_write reg domain idx s =
      if reg == domaincfg
      then ok (post_write_domainconfig domain idx s)
      else if reg == sourcecfg
      then post_write_sourcecfg number_domains domain idx s
      else if reg == mmsiaddrcfg || reg == mmsiaddrcfgh || reg == smsiaddrcfg || reg == smsiaddrcfgh
      then ok (post_write_xmsiaddrcfg reg domain idx s)
      else if reg == setip
      then post_write_setip number_interrupts domain idx s
      else if reg == setipnum || reg == setipnum_le
      then ok (post_write_setipnum number_interrupts reg domain idx s)
      else if reg == in_clrip
      then post_write_in_clrip domain idx s
      else if reg == clripnum
      then ok (post_write_clripnum number_interrupts domain idx s)
      else if reg == setie
      then post_write_setie number_interrupts domain idx s
      else if reg == setienum
      then ok (post_write_setienum number_interrupts domain idx s)
      else if reg == clrie
      then post_write_clrie domain idx s
      else if reg == clrienum
      then ok (post_write_clrienum number_interrupts domain idx s)
      else if reg == setipnum_be
      then ok (post_write_setipnum_be domain idx s)
      else if reg == genmsi
      then post_write_genmsi number_cores domain idx s
      else if reg == target
      then ok (post_write_target number_interrupts domain idx s)
      else ok s

  unfoldable pub write : ℕ → ℕ → ℕ → ℕ → Aplic → Result Aplic
  unfolding post_write set_reg
  write reg domain idx value s = post_write reg domain idx (set_reg reg domain idx value s)
