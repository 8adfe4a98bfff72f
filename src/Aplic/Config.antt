-- ===== src/Aplic/Config.antt =====
-- aplic.h: the writes that configure a domain, its addresses and its sources.
use rvvp.Base.{
  ℕ, ◌+◌, ◌-◌, ◌*◌, ◌/◌, ◌%◌, ◌^◌, not, ◌&&◌, ltb, leb, ◌==◌, if◌then◌else◌, bit_and, bit_or,
}
use rvvp.Base.Bits.{truth, bit_not}
use rvvp.Core.Result.{Result, ok, check, ◌>>◌}
use rvvp.Aplic.State.{
  Aplic, aplic_m_domain, domaincfg, sourcecfg, target, inactive, level0, set_reg, set_ip, set_ie,
  field,
}

unfoldable pub post_write_domainconfig : ℕ → ℕ → Aplic → Aplic
unfolding set_reg
post_write_domainconfig domain idx s =
    let tmp = s.regs domaincfg domain idx in
    set_reg domaincfg domain idx
      (bit_or (bit_or (2 ^ 2) (bit_and tmp (0x1 * 2 ^ 8))) (0x80 * 2 ^ 24)) s

-- `post_write_xmsiaddrcfg`, which is bound for all domains but the machine's.
unfoldable pub post_write_xmsiaddrcfg : ℕ → ℕ → ℕ → Aplic → Aplic
unfolding set_reg
post_write_xmsiaddrcfg reg domain idx s =
    if domain == aplic_m_domain then s else set_reg reg domain idx 0 s

module _ (number_domains : ℕ) where
  unfoldable pub post_write_sourcecfg : ℕ → ℕ → Aplic → Result Aplic
  unfolding set_reg set_ie set_ip
  post_write_sourcecfg domain idx s =
      let eiid = idx + 1 in
      let sourcecfg_reg = s.regs sourcecfg domain idx in
      let sm = field sourcecfg_reg 0 0x7 in
      let word = eiid / 32 in
      let mask = bit_not 32 (2 ^ (eiid % 32)) in
      let ie = bit_and (s.ie_reg aplic_m_domain word) mask in
      let ip = bit_and (s.ip_reg aplic_m_domain word) mask in
      check (leb sm level0 && (not (sm == 2) && not (sm == 3)))
      >> (check (ltb 0 eiid && ltb eiid 1024)
          >> (if sm == inactive
              then ok (
                  set_ip aplic_m_domain word ip (
                    set_ie aplic_m_domain word ie (
                      set_reg target aplic_m_domain (eiid - 1) 0
                        (set_reg sourcecfg domain idx 0 s))))
              else if truth (bit_and sourcecfg_reg (2 ^ 10))
              then check (ltb (field sourcecfg_reg 0 0x3ff) number_domains) >> ok s
              else ok s))
