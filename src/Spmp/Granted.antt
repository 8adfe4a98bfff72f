-- ===== src/Spmp/Granted.antt =====
-- Which accesses `do_phy_address_check` grants at user level, and how it refuses the others.
use rvvp.Base.{
  ℕ, ◌+◌, ◌^◌, ◌≤◌, ◌<◌, ◌≡◌, ◌↔◌, ◌⊎◌, inl, inr, sym, ap, ◌∙◌, Bool, Bool-cases, true, false,
  arith,
}
use rvvp.Core.Privilege.{user_mode, machine_mode}
use rvvp.Core.Result.{Result, ok, stop, simulation_trap, AccessType, load}
use rvvp.Mmu.Faults.{page_fault_trap}
use rvvp.Spmp.Config.{SpmpCsrs, cfg_of, cfg_s, cfg_r, cfg_w}
use rvvp.Spmp.Region.{
  Region, Found, find_matching_entry, takes_part, region_of, tor_region, na4_region,
}
use rvvp.Spmp.Access.{is_access_allowed, allowed_by_supervisor_rule, check_rwx_permission}
use rvvp.Spmp.Check.{Cache, cache_hit, decide, do_phy_address_check, update_cache}
use rvvp.Spmp.First.{
  Contains, Misses, Straddles, Outcome, inside, straddling, missing, first_word, last_word,
  find_matching_entry-Outcome, range,
}
use rvvp.Mmu.Reuse.{type_eq_refl}

compare : (k k' : ℕ) → (k < k') ⊎ ((k ≡ k') ⊎ (k' < k))
compare k k' = ground arith

-- The entry that decides an access: the lowest-numbered one that it touches, holding it whole.
abbrev pub Decides : SpmpCsrs → ℕ → ℕ → ℕ → Type 0
Decides c paddr sz k =
    (k < 64)
    × ((j : ℕ) → j < k → Misses c (first_word paddr) (last_word paddr sz) j)
    × Contains c (first_word paddr) (last_word paddr sz) k

contained :
    (c : SpmpCsrs) (paddr sz k : ℕ)
    → 0 < sz
    → Contains c (first_word paddr) (last_word paddr sz) k
    → ¬ Misses c (first_word paddr) (last_word paddr sz) k
contained c paddr sz k some_bytes (on, (low, high)) miss =
    let le : first_word paddr ≤ last_word paddr sz = omega arith in miss on (inl (low, omega arith))

-- The access touches no entry below `k`.
abbrev pub MissesBelow : SpmpCsrs → ℕ → ℕ → ℕ → Type 0
MissesBelow c paddr sz k = (j : ℕ) → j < k → Misses c (first_word paddr) (last_word paddr sz) j

-- Why the entries refuse an access: the permissions of the one that decides it do at the level of the
-- core; the lowest-numbered one that it touches does not hold it whole; it touches none of the 64.
abbrev pub Refusal : SpmpCsrs → ℕ → ℕ → AccessType → Type 0
Refusal c paddr sz type =
    ((k : ℕ) × Decides c paddr sz k × (is_access_allowed c.sum c.prv (cfg_of c k) type ≡ false))
    ⊎ (((k : ℕ) × (k < 64)
          × MissesBelow c paddr sz k
          × Straddles c (first_word paddr) (last_word paddr sz) k)
        ⊎ MissesBelow c paddr sz 64)

-- No two entries decide an access.
deciding :
    (c : SpmpCsrs) (paddr sz : ℕ) {k k' : ℕ}
    → 0 < sz
    → Decides c paddr sz k
    → Decides c paddr sz k'
    → k' ≡ k
deciding c paddr sz {k} {k'} some_bytes d d' = elim (compare k k') [
  | inl before ↦ absurd (contained c paddr sz k some_bytes d.2 (d'.1 k before))
  | inr (inl same) ↦ sym same
  | inr (inr behind) ↦ absurd (contained c paddr sz k' some_bytes d'.2 (d.1 k' behind))
]

not_straddled :
    (c : SpmpCsrs) (paddr sz : ℕ) {k k' : ℕ}
    → 0 < sz
    → Decides c paddr sz k
    → ((j : ℕ) → j < k' → Misses c (first_word paddr) (last_word paddr sz) j)
    → ¬ Straddles c (first_word paddr) (last_word paddr sz) k'
not_straddled c paddr sz {k} {k'} some_bytes d all (on, touched, not_inside) = elim (compare k k') [
  | inl before ↦ contained c paddr sz k some_bytes d.2 (all k before)
  | inr (inl same) ↦ not_inside (rw (← same) d.2.1)
  | inr (inr behind) ↦ d.1 k' behind on touched
]

module _ (c : SpmpCsrs) (start : Found) (paddr sz : ℕ) (type : AccessType) (cache : Cache) where
  abbrev checked : ℕ → Result (Bool × Cache)
  checked mode = do_phy_address_check c start mode paddr sz type cache

  checked_user :
      c.satp_mode ≡ 0
      → cache_hit cache user_mode paddr sz type ≡ false
      → checked user_mode
        ≡ decide c user_mode paddr type cache (find_matching_entry c paddr sz start)
  unfolding do_phy_address_check
  checked_user bare cold = ground arith

  decide_inside :
      (f : Found)
      → f.partial ≡ false
      → f.nentry < 64
      → is_access_allowed c.sum c.prv f.cfg type ≡ true
      → decide c user_mode paddr type cache f
        ≡ ok (
          true,
          update_cache cache user_mode type (record { rgn = f.region; entry_valid = true }),
        )
  unfolding decide
  decide_inside f p n allowed = ground arith

  decide_granted :
      (f : Found) {cache' : Cache}
      → decide c user_mode paddr type cache f ≡ ok (true, cache')
      → (f.partial ≡ false)
        × (f.nentry < 64)
        × (is_access_allowed c.sum c.prv f.cfg type ≡ true)
        × (cache' user_mode type ≡ record { rgn = f.region; entry_valid = true })
  unfolding decide
  decide_granted f h = ground (arith, type_eq_refl type)

  -- At user level the check grants or ends with the page fault.
  answered :
      c.satp_mode ≡ 0
      → ((cache' : Cache) × (checked user_mode ≡ ok (true, cache')))
        ⊎ (checked user_mode ≡ stop (simulation_trap (page_fault_trap type paddr)))
  unfolding do_phy_address_check decide
  answered bare = ground arith

  -- What a grant without a hit of the cache says of the entries, and what the cache then holds.
  pub granted_by :
      {cache' : Cache}
      → c.satp_mode ≡ 0
      → cache_hit cache user_mode paddr sz type ≡ false
      → 0 < sz
      → paddr + sz ≤ 2 ^ 64
      → checked user_mode ≡ ok (true, cache')
      → (k : ℕ) × Decides c paddr sz k
        × (is_access_allowed c.sum c.prv (cfg_of c k) type ≡ true)
        × (cache' user_mode type ≡ record { rgn = range c k; entry_valid = true })
  granted_by {cache'} bare cold some_bytes fits h =
      let f = find_matching_entry c paddr sz start in
      let (p, n, allowed, kept) = decide_granted f (sym (checked_user bare cold) ∙ h) in
      elim (find_matching_entry-Outcome c paddr sz start some_bytes fits) [
        | inside k le lt all here e ↦ (
          k,
          (lt, (λ j lt_j. all j (omega arith) lt_j), here),
          sym (ap (λ (g : Found). is_access_allowed c.sum c.prv g.cfg type) e) ∙ allowed,
          kept ∙ ap (λ (g : Found). record { rgn = g.region; entry_valid = true }) e,
        )
        | straddling k le lt all here q ↦ absurd (cc (sym p ∙ q))
        | missing all q last ↦ absurd (omega arith)
      ]

  -- With paging off, at user level and without a hit of the cache, an access of at least one byte
  -- inside the address space is granted exactly if some entry decides it and the permissions of that
  -- entry allow it at the level the core runs at.
  pub do_phy_address_check_user_iff :
      c.satp_mode ≡ 0
      → cache_hit cache user_mode paddr sz type ≡ false
      → 0 < sz
      → paddr + sz ≤ 2 ^ 64
      → ((cache' : Cache) × (checked user_mode ≡ ok (true, cache'))) ↔ (
          (k : ℕ) × Decides c paddr sz k × (is_access_allowed c.sum c.prv (cfg_of c k) type ≡ true))
  do_phy_address_check_user_iff bare cold some_bytes fits = (there, back)
    where
      f : Found
      f = find_matching_entry c paddr sz start

      found : Outcome c (first_word paddr) (last_word paddr sz) 0 64 f
      found = find_matching_entry-Outcome c paddr sz start some_bytes fits

      there :
          (cache' : Cache) × (checked user_mode ≡ ok (true, cache'))
          → (k : ℕ) × Decides c paddr sz k
            × (is_access_allowed c.sum c.prv (cfg_of c k) type ≡ true)
      there (cache', h) =
          let (k, decides, allowed, _) = granted_by bare cold some_bytes fits h in
          (k, decides, allowed)

      back :
          (k : ℕ) × Decides c paddr sz k × (is_access_allowed c.sum c.prv (cfg_of c k) type ≡ true)
          → (cache' : Cache) × (checked user_mode ≡ ok (true, cache'))
      back (k, decides, allowed) = elim found [
        | inside k' le lt all here e ↦
            let same : k' ≡ k =
              deciding c paddr sz some_bytes decides
                (lt, (λ j lt_j. all j (omega arith) lt_j), here) in
            let n : f.nentry ≡ k' = ap (λ (g : Found). g.nentry) e in
            let rgn : Region = f.region in
            let cfg : f.cfg ≡ cfg_of c k = ap (λ (g : Found). g.cfg) e ∙ ap (cfg_of c) same in
            (
              update_cache cache user_mode type (record { rgn = rgn; entry_valid = true }),
              checked_user bare cold
                  ∙ decide_inside f (ap (λ (g : Found). g.partial) e) (omega arith)
                      (ap (λ (t : ℕ). is_access_allowed c.sum c.prv t type) cfg ∙ allowed),
            )
        | straddling k' le lt all here q ↦
            absurd (
              not_straddled c paddr sz some_bytes decides (λ j lt_j. all j (omega arith) lt_j) here)
        | missing all q last ↦
            absurd (contained c paddr sz k some_bytes decides.2 (all k (omega arith) decides.0))
      ]

  -- With paging off, at user level and without a hit of the cache, an access of at least one byte
  -- inside the address space ends with the page fault of its kind (the cause 12, 13 or 15) at its
  -- address exactly in three cases: the permissions of the entry that decides it refuse it at the
  -- level the core runs at; the lowest-numbered entry that it touches does not hold it whole; or it
  -- touches none of the 64 entries.
  pub do_phy_address_check_user_refused :
      c.satp_mode ≡ 0
      → cache_hit cache user_mode paddr sz type ≡ false
      → 0 < sz
      → paddr + sz ≤ 2 ^ 64
      → (checked user_mode ≡ stop (simulation_trap (page_fault_trap type paddr)))
        ↔ Refusal c paddr sz type
  do_phy_address_check_user_refused bare cold some_bytes fits = (there, back)
    where
      grants : ((cache' : Cache) × (checked user_mode ≡ ok (true, cache'))) ↔ (
          (k : ℕ) × Decides c paddr sz k × (is_access_allowed c.sum c.prv (cfg_of c k) type ≡ true))
      grants = do_phy_address_check_user_iff bare cold some_bytes fits

      there :
          checked user_mode ≡ stop (simulation_trap (page_fault_trap type paddr))
          → Refusal c paddr sz type
      there h = elim (find_matching_entry-Outcome c paddr sz start some_bytes fits) [
        | inside k le lt all here e ↦
            let decides : Decides c paddr sz k = (lt, (λ j lt_j. all j (omega arith) lt_j), here) in
            elim (Bool-cases (is_access_allowed c.sum c.prv (cfg_of c k) type)) [
              | inl allowed ↦
                  let (cache', granted) = grants.1 (k, decides, allowed) in
                  absurd (cc (sym granted ∙ h))
              | inr refused ↦ inl (k, decides, refused)
            ]
        | straddling k le lt all here q ↦
            inr (inl (k, lt, (λ j lt_j. all j (omega arith) lt_j), here))
        | missing all q last ↦ inr (inr (λ j lt_j. all j (omega arith) lt_j))
      ]

      no_grant :
          ((k : ℕ) × Decides c paddr sz k
            × (is_access_allowed c.sum c.prv (cfg_of c k) type ≡ true))
          → Refusal c paddr sz type
          → ⊥
      no_grant (k, decides, allowed) (inl (k', decides', refused)) =
          let same = deciding c paddr sz some_bytes decides' decides in
          cc (
            sym allowed
            ∙ ap (λ (j : ℕ). is_access_allowed c.sum c.prv (cfg_of c j) type) same
            ∙ refused)
      no_grant (k, decides, allowed) (inr (inl (k', lt, all, here))) =
          not_straddled c paddr sz some_bytes decides all here
      no_grant (k, decides, allowed) (inr (inr all)) =
          contained c paddr sz k some_bytes decides.2 (all k decides.0)

      back :
          Refusal c paddr sz type
          → checked user_mode ≡ stop (simulation_trap (page_fault_trap type paddr))
      back cases = elim (answered bare) [
        | inl granted ↦ absurd (no_grant (grants.0 granted) cases)
        | inr fault ↦ fault
      ]

-- With paging off and no hit of the cache, a load of at least one byte inside the address space is
-- checked at user level, and an entry decides it that only the supervisor may read (S and R set, W
-- clear). While the core runs at machine level, as with mprv, the check grants the load, because it
-- decides by the level of the core; with the same registers in user mode it ends with the page fault
-- of a load at that address.
pub do_phy_address_check_mprv :
    (c : SpmpCsrs) (start : Found) (paddr sz k : ℕ) (cache : Cache)
    → c.satp_mode ≡ 0
    → cache_hit cache user_mode paddr sz load ≡ false
    → 0 < sz
    → paddr + sz ≤ 2 ^ 64
    → Decides c paddr sz k
    → cfg_s (cfg_of c k) ≡ true
    → cfg_r (cfg_of c k) ≡ true
    → cfg_w (cfg_of c k) ≡ false
    → let at = λ (prv : ℕ).
      do_phy_address_check (record c { prv = prv }) start user_mode paddr sz load cache in
      ((cache' : Cache) × (at machine_mode ≡ ok (true, cache')))
      × (at user_mode ≡ stop (simulation_trap (page_fault_trap load paddr)))
unfolding is_access_allowed allowed_by_supervisor_rule check_rwx_permission takes_part region_of
    tor_region na4_region
do_phy_address_check_mprv c start paddr sz k cache bare cold some_bytes fits decides s r w =
    let low = record c { prv = user_mode } in
    let high = record c { prv = machine_mode } in
    (
      (do_phy_address_check_user_iff high start paddr sz load cache bare cold some_bytes fits).1
          (k, decides, ground arith),
      (do_phy_address_check_user_refused low start paddr sz load cache bare cold some_bytes fits).1
          (inl (k, decides, ground arith)),
    )
