-- ===== src/Spmp/Tests.antt =====
-- Concrete inputs for the theorems on spmp.h.
use rvvp.Base.{ℕ, ◌*◌, ◌^◌, ◌≡◌, ◌↔◌, refl, true, false, ◌==◌, if◌then◌else◌, arith}
use rvvp.Base.Bits.{test_bit}
use rvvp.Core.Privilege.{user_mode, supervisor_mode, machine_mode}
use rvvp.Core.Result.{ok, stop, simulation_trap, load, store, fetch}
use rvvp.Mmu.Faults.{page_fault_trap}
use rvvp.Spmp.Config.{SpmpCsrs, cfg_s, cfg_of}
use rvvp.Spmp.Region.{
  Found, find_matching_entry, takes_part, region_of, tor_region, na4_region, napot_region,
}
use rvvp.Spmp.Access.{is_access_allowed}
use rvvp.Spmp.Check.{Cache, cache_hit, update_cache, do_phy_address_check}
use rvvp.Spmp.First.{Outcome, find_matching_entry-Outcome}
use rvvp.Spmp.Granted.{
  Decides, Refusal, do_phy_address_check_user_refused, do_phy_address_check_user_iff,
  do_phy_address_check_mprv,
}
use rvvp.Spmp.Rules.{is_access_allowed_separates}
use rvvp.Spmp.Napot.{napot, napot_region-napot}

-- Entry 1 is the only one that is on: a TOR range of the first 4 KiB that the supervisor may read.
abbrev one_range : SpmpCsrs
one_range = record {
  spmpcfg = λ i. if i == 0 then 0x8900 else 0;
  spmpaddr = λ i. if i == 1 then 0x400 else 0;
  spmpswitch = λ i. if i == 0 then 2 else 0;
  satp_mode = 0;
  sum = false;
  prv = user_mode;
}

abbrev unset : Found
unset = record {
  partial = false;
  nentry = 0;
  cfg = 0;
  region = record { start_addr = 0; end_addr = 0 };
}

abbrev cold : Cache
cold mode type = record { rgn = record { start_addr = 0; end_addr = 0 }; entry_valid = false }

decides : Decides one_range 0x100 4 1
unfolding takes_part region_of tor_region na4_region
decides = (
  omega arith,
  (λ j lt on.
      let e : j ≡ 0 = omega arith in
      let off : takes_part one_range 0 ≡ true = rw e at on in absurd (cc off)),
  (refl, (omega arith, omega arith)),
)

find_matching_entry-Outcome_example :
    Outcome one_range 0x100 0x100 0 64 (find_matching_entry one_range 0x100 4 unset)
find_matching_entry-Outcome_example =
    find_matching_entry-Outcome one_range 0x100 4 unset (omega arith) (omega arith)

cold_miss : cache_hit cold user_mode 0x100 4 load ≡ false
unfolding cache_hit
cold_miss = refl

do_phy_address_check_user_iff_example :
    ((cache' : Cache) × (do_phy_address_check one_range unset user_mode 0x100 4 load cold
        ≡ ok (true, cache')))
    ↔ ((k : ℕ) × Decides one_range 0x100 4 k
        × (is_access_allowed false user_mode (cfg_of one_range k) load ≡ true))
do_phy_address_check_user_iff_example =
    do_phy_address_check_user_iff one_range unset 0x100 4 load cold refl cold_miss (omega arith)
      (omega arith)

do_phy_address_check_user_refused_example :
    (do_phy_address_check one_range unset user_mode 0x100 4 load cold
      ≡ stop (simulation_trap (page_fault_trap load 0x100)))
    ↔ Refusal one_range 0x100 4 load
do_phy_address_check_user_refused_example =
    do_phy_address_check_user_refused one_range unset 0x100 4 load cold refl cold_miss (omega arith)
      (omega arith)

-- The same entry without S, which user code may read; and no entry at all.
abbrev user_range : SpmpCsrs
user_range = record one_range { spmpcfg = λ i. if i == 0 then 0x900 else 0 }

abbrev nothing_on : SpmpCsrs
nothing_on = record one_range { spmpswitch = λ i. 0 }

abbrev warm : Cache
warm =
    update_cache cold user_mode load
      (record { rgn = record { start_addr = 0; end_addr = 0x1000 }; entry_valid = true })

do_phy_address_check_mprv_example :
    let at = λ (prv : ℕ).
      do_phy_address_check (record one_range { prv = prv }) unset user_mode 0x100 4 load cold in
    ((cache' : Cache) × (at machine_mode ≡ ok (true, cache')))
    × (at user_mode ≡ stop (simulation_trap (page_fault_trap load 0x100)))
unfolding test_bit
do_phy_address_check_mprv_example =
    do_phy_address_check_mprv one_range unset 0x100 4 1 cold refl cold_miss (omega arith)
      (omega arith) decides refl refl refl

is_access_allowed_separates_example :
    (is_access_allowed true supervisor_mode 0x8b store ≡ true
      → is_access_allowed true supervisor_mode 0x8b fetch ≡ false)
    × (is_access_allowed true supervisor_mode 0x8b fetch ≡ true → cfg_s 0x8b ≡ true)
    × (is_access_allowed true user_mode 0x8b store ≡ true → cfg_s 0x8b ≡ false)
    × (cfg_s 0x8b ≡ false
        → is_access_allowed false supervisor_mode 0x8b load ≡ true
        → is_access_allowed true user_mode 0x8b load ≡ true)
    × (cfg_s 0x8b ≡ false
        → is_access_allowed false supervisor_mode 0x8b store ≡ true
        → is_access_allowed true user_mode 0x8b load ≡ true)
is_access_allowed_separates_example = is_access_allowed_separates true 0x8b

napot_region-napot_example :
    napot_region (napot 0x80010 9)
    ≡ record { start_addr = 0x80010 * 2 ^ 12; end_addr = 0x80011 * 2 ^ 12 }
napot_region-napot_example = napot_region-napot 0x80010 9 (omega arith) (omega arith)
