-- ===== src/Spmp/Check.antt =====
-- spmp.h: `do_phy_address_check`, with the cache of the last region of each mode and kind of access.
use rvvp.Base.{
  ℕ, ◌+◌, ◌-◌, ◌%◌, ◌^◌, Bool, true, false, not, ◌&&◌, ◌||◌, ltb, leb, ◌==◌, if◌then◌else◌,
}
use rvvp.Core.Privilege.{
  user_mode, supervisor_mode, machine_mode, virtual_user_mode, virtual_supervisor_mode,
}
use rvvp.Core.Result.{Result, ok, AccessType, raise_trap}
use rvvp.Mmu.Walk.{page_fault_cause}
use rvvp.Mmu.Tlb.{type_eq}
use rvvp.Spmp.Config.{SpmpCsrs, spmp_entries}
use rvvp.Spmp.Region.{Region, Found, find_matching_entry, word_of}
use rvvp.Spmp.Access.{is_access_allowed}

-- `spmp_cache_entry_str`
pub record CacheEntry : Type 0 where
  pub rgn : Region
  pub entry_valid : Bool

abbrev pub Cache : Type 0
Cache = ℕ → AccessType → CacheEntry

unfoldable pub clear_spmp_cache : Cache → Cache
clear_spmp_cache cache mode type = record {
  rgn = record { start_addr = 0; end_addr = 0 };
  entry_valid = false;
}

abbrev pub update_cache : Cache → ℕ → AccessType → CacheEntry → Cache
update_cache cache mode type x mode' type' =
    if mode == mode' && type_eq type type' then x else cache mode' type'

-- The access lies in the region that is cached for its mode and kind.
unfoldable pub cache_hit : Cache → ℕ → ℕ → ℕ → AccessType → Bool
cache_hit cache mode paddr sz type =
    let x = cache mode type in
    x.entry_valid
    && leb x.rgn.start_addr (word_of paddr)
    && ltb (word_of ((paddr + sz + 2 ^ 64 - 1) % 2 ^ 64)) x.rgn.end_addr

-- The part behind the search, which found `f`.
unfoldable pub decide : SpmpCsrs → ℕ → ℕ → AccessType → Cache → Found → Result (Bool × Cache)
decide c mode paddr type cache f =
    if f.partial
    then raise_trap (page_fault_cause type) paddr
    else if mode == supervisor_mode && leb spmp_entries f.nentry
    then ok (true, cache)
    else if mode == user_mode && leb spmp_entries f.nentry
    then raise_trap (page_fault_cause type) paddr
    else if is_access_allowed c.sum c.prv f.cfg type
    then ok (true, update_cache cache mode type (record { rgn = f.region; entry_valid = true }))
    else raise_trap (page_fault_cause type) paddr

-- `do_phy_address_check`; `start` holds the locals before they are written.
unfoldable pub do_phy_address_check :
    SpmpCsrs → Found → ℕ → ℕ → ℕ → AccessType → Cache → Result (Bool × Cache)
do_phy_address_check c start mode paddr sz type cache =
    if not (c.satp_mode == 0)
    then ok (false, cache)
    else if mode == virtual_supervisor_mode || mode == virtual_user_mode
    then ok (true, cache)
    else if mode == machine_mode
    then ok (true, cache)
    else if cache_hit cache mode paddr sz type
    then ok (true, cache)
    else decide c mode paddr type cache (find_matching_entry c paddr sz start)
