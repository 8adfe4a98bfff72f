-- ===== src/Aplic/Address.antt =====
-- aplic.h: the address of a hart's interrupt file, as a message is sent to it.
use rvvp.Base.{ℕ, ◌+◌, ◌-◌, ◌*◌, ◌/◌, ◌%◌, ◌^◌, ltb, bit_and, bit_or}
use rvvp.Core.Result.{Result, ok, check, ◌>>◌}
use rvvp.Aplic.State.{
  Aplic, aplic_m_domain, mmsiaddrcfg, mmsiaddrcfgh, smsiaddrcfg, smsiaddrcfgh, field,
}

-- `get_m_target_address`. The source shifts by `hhxs + 12`, which is undefined from 32 on.
unfoldable pub get_m_target_address : ℕ → ℕ → Aplic → Result ℕ
get_m_target_address number_cores hart_ind s =
    let mmsiaddr = s.regs mmsiaddrcfg aplic_m_domain 0 in
    let mmsiaddrh = s.regs mmsiaddrcfgh aplic_m_domain 0 in
    let lhxw = field mmsiaddrh 12 0xf in
    let hhxw = field mmsiaddrh 16 0x7 in
    let lhxs = field mmsiaddrh 20 0x7 in
    let hhxs = field mmsiaddrh 24 0x1f in
    let hippn = field mmsiaddrh 0 0xfff in
    let g = bit_and (hart_ind / 2 ^ lhxw) (2 ^ hhxw - 1) in
    let h = bit_and hart_ind (2 ^ lhxw - 1) in
    let ppn = bit_or (hippn * 2 ^ 32) mmsiaddr in
    check (ltb hart_ind number_cores)
    >> ok (bit_or (bit_or ppn (g * 2 ^ (hhxs + 12) % 2 ^ 32)) (h * 2 ^ lhxs) * 2 ^ 12 % 2 ^ 32)

-- `get_s_target_address`, which nothing calls.
unfoldable pub get_s_target_address : ℕ → ℕ → ℕ → Aplic → Result ℕ
get_s_target_address number_cores machine_hart_ind guest_ind s =
    let mmsiaddrh = s.regs mmsiaddrcfgh aplic_m_domain 0 in
    let smsiaddr = s.regs smsiaddrcfg aplic_m_domain 0 in
    let smsiaddrh = s.regs smsiaddrcfgh aplic_m_domain 0 in
    let lhxw = field mmsiaddrh 12 0xf in
    let hhxw = field mmsiaddrh 16 0x7 in
    let lhxs = field smsiaddrh 20 0x7 in
    let hhxs = field mmsiaddrh 24 0x1f in
    let hippn = field smsiaddrh 0 0xfff in
    let g = bit_and (machine_hart_ind / 2 ^ lhxw) (2 ^ hhxw - 1) in
    let h = bit_and machine_hart_ind (2 ^ lhxw - 1) in
    let ppn = bit_or (hippn * 2 ^ 32) smsiaddr in
    check (ltb machine_hart_ind number_cores)
    >> ok (
        bit_or (bit_or (bit_or ppn (g * 2 ^ (hhxs + 12) % 2 ^ 32)) (h * 2 ^ lhxs)) guest_ind
        * 2 ^ 12
        % 2 ^ 32)
