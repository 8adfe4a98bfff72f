-- ===== src/Irq/Ranks.antt =====
-- What the comparison of `irq_cprio` means.
use rvvp.Base.{ℕ, ◌^◌, ◌≤◌, ◌<◌, ◌≡◌, ◌≢◌, ◌↔◌, ◌⊎◌, Bool, true, ltb, ◌==◌, if◌then◌else◌, arith}
use rvvp.Core.Privilege.{is_irq_capable_level}
use rvvp.Core.Result.{ok}
use rvvp.Irq.Order.{create_order, to_order, get_external_iid}
use rvvp.Irq.Places.{place_of, external_iid_bound, get_dpo-eq, to_order_unique}
use rvvp.Irq.Cprio.{
  IrqCprio, cprio, lt_cprio, external_cprio, local_cprio, injected_cprio, to_iprio,
}

capable :
    (level : ℕ) {external : ℕ}
    → get_external_iid level ≡ ok external
    → is_irq_capable_level level ≡ true
unfolding get_external_iid is_irq_capable_level
capable level e = ground arith

to_order-eq : (iid : ℕ) → iid < 64 → to_order iid ≡ ok (create_order iid)
unfolding to_order
to_order-eq iid lt = ground arith

abbrev plain : ℕ → ℕ → ℕ → IrqCprio
plain iid iprio dpr = record {
  order = create_order iid;
  iprio = iprio;
  dpr_0 = dpr;
  lowest_nonexisting = 0;
}

external_cprio-eq :
    (level external eiid : ℕ)
    → get_external_iid level ≡ ok external
    → eiid < 2048
    → external_cprio level eiid ≡ ok (plain external eiid 0)
unfolding external_cprio
external_cprio-eq level external eiid e lt =
    let bound = external_iid_bound level e in
    let (low, _) = place_of external bound in
    let order = to_order-eq external bound in let able = capable level e in ground arith

-- Whether an interrupt comes behind the external one.
abbrev behind : ℕ → ℕ → ℕ
behind iid external = if ltb (create_order iid) (create_order external) then 0 else 1

local_cprio-eq :
    (level external iid iprio : ℕ)
    → get_external_iid level ≡ ok external
    → iid < 64
    → iid ≢ external
    → iprio < 256
    → local_cprio level iid iprio
      ≡ ok (plain iid iprio (if iprio == 0 then behind iid external else 0))
unfolding local_cprio
local_cprio-eq level external iid iprio e lt other byte =
    let (low, _) = place_of iid lt in
    let order = to_order-eq iid lt in
    let able = capable level e in
    let dpo = get_dpo-eq level iid external e lt in
    let apart = to_order_unique iid external lt (external_iid_bound level e) in ground arith

-- A local interrupt with number `iid` and priority `iprio` comes before the external interrupt of
-- its level with identity `eiid`.
abbrev pub BeforeExternal : ℕ → ℕ → ℕ → ℕ → Type 0
BeforeExternal external iid iprio eiid =
    ((iprio ≡ 0) × (create_order iid < create_order external))
    ⊎ ((iprio ≢ 0)
        × ((iprio < eiid) ⊎ ((iprio ≡ eiid) × (create_order iid < create_order external))))

-- A local interrupt with number `iid` comes before the one with number `jid`.
abbrev pub BeforeLocal : ℕ → ℕ → ℕ → ℕ → ℕ → Type 0
BeforeLocal external iid iprio jid jprio =
    ((iprio ≡ 0) × (jprio ≡ 0) × (create_order iid < create_order jid))
    ⊎ (((iprio ≡ 0) × (jprio ≢ 0) × (create_order iid < create_order external))
        ⊎ (((iprio ≢ 0) × (jprio ≡ 0) × (create_order external < create_order jid))
            ⊎ ((iprio ≢ 0)
                × (jprio ≢ 0)
                × ((iprio < jprio) ⊎ ((iprio ≡ jprio) × (create_order iid < create_order jid))))))

module _ (level external iid iprio : ℕ) (e : get_external_iid level ≡ ok external) (lt : iid < 64)
    (other : iid ≢ external) (byte : iprio < 256) where
  -- A local interrupt other than the external one of its level is built, and so is the external one
  -- with any identity below 2048. The local one compares as smaller exactly if its priority number
  -- is smaller, the default order deciding between equal numbers; without a number it compares as
  -- smaller exactly if it comes before the external one in the default order, whatever the identity.
  pub lt_cprio-external_cprio :
      (eiid : ℕ)
      → eiid < 2048
      → (p : IrqCprio) × (q : IrqCprio) × (local_cprio level iid iprio ≡ ok p)
        × (external_cprio level eiid ≡ ok q)
        × ((lt_cprio p q ≡ true) ↔ BeforeExternal external iid iprio eiid)
  unfolding cprio
  lt_cprio-external_cprio eiid small =
      let (low, _) = place_of iid lt in
      let (low', _) = place_of external (external_iid_bound level e) in
      let apart = to_order_unique iid external lt (external_iid_bound level e) in
      (
        plain iid iprio (if iprio == 0 then behind iid external else 0),
        plain external eiid 0,
        local_cprio-eq level external iid iprio e lt other byte,
        external_cprio-eq level external eiid e small,
        ground arith,
      )

  -- Two local interrupts of a level, neither the external one: without priority numbers they compare
  -- as the default order has them; with numbers by these, then by the default order; one without a
  -- number comes before one with a number exactly if it comes before the external interrupt.
  pub lt_cprio-local_cprio :
      (jid jprio : ℕ)
      → jid < 64
      → jid ≢ external
      → jprio < 256
      → (p : IrqCprio) × (q : IrqCprio) × (local_cprio level iid iprio ≡ ok p)
        × (local_cprio level jid jprio ≡ ok q)
        × ((lt_cprio p q ≡ true) ↔ BeforeLocal external iid iprio jid jprio)
  unfolding cprio
  lt_cprio-local_cprio jid jprio lt' other' byte' =
      let bound = external_iid_bound level e in
      let (low, _) = place_of iid lt in
      let (low', _) = place_of jid lt' in
      let apart = to_order_unique iid external lt bound in
      let apart' = to_order_unique jid external lt' bound in
      (
        plain iid iprio (if iprio == 0 then behind iid external else 0),
        plain jid jprio (if jprio == 0 then behind jid external else 0),
        local_cprio-eq level external iid iprio e lt other byte,
        local_cprio-eq level external jid jprio e lt' other' byte',
        ground arith,
      )

-- A priority as the constructors leave it.
abbrev pub IsPriority : IrqCprio → Type 0
IsPriority p =
    (p.order < 2 ^ 8)
    × (p.iprio < 2 ^ 16)
    × (p.dpr_0 < 2)
    × (p.lowest_nonexisting ≡ 0)
    × ((p.dpr_0 ≡ 1) → (p.iprio ≡ 0))

-- Of two priorities as the constructors make them, each has a number for topi, and the one that
-- compares as smaller does not get the larger number.
to_iprio_monotone :
    (p q : IrqCprio)
    → IsPriority p
    → IsPriority q
    → (m : ℕ) × (n : ℕ) × (to_iprio p ≡ ok m)
      × (to_iprio q ≡ ok n)
      × (n < 256)
      × (lt_cprio p q ≡ true → m ≤ n)
unfolding to_iprio cprio
to_iprio_monotone p q hp hq =
    let number = λ (r : IrqCprio).
      if r.iprio == 0
      then (if r.dpr_0 == 0 then 0 else 255)
      else if ltb 255 r.iprio
      then 255
      else r.iprio in
    (number p, number q, ground arith, ground arith, ground arith, ground arith)

-- Every constructor of a priority that returns makes one whose fields are in range, exists, and has
-- the rank bit only without a priority number.
constructed-IsPriority :
    (level : ℕ) (p : IrqCprio)
    → ((eiid : ℕ) → external_cprio level eiid ≡ ok p → IsPriority p)
      × ((iid iprio : ℕ) → local_cprio level iid iprio ≡ ok p → IsPriority p)
      × ((iprio : ℕ) (dpr : Bool) → injected_cprio level iprio dpr ≡ ok p → IsPriority p)
unfolding external_cprio local_cprio injected_cprio
constructed-IsPriority level p =
    ((λ eiid h. ground arith), (λ iid iprio h. ground arith), (λ iprio dpr h. ground arith))
