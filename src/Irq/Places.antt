-- ===== src/Irq/Places.antt =====
-- The default order of irq-prio.h is total; what `get_dpo` and the transformations make of it.
use rvvp.Base.{
  ℕ, zero, suc, ◌<◌, ◌≡◌, ◌↔◌, refl, ◌∙◌, sym, ap, true, ◌&&◌, some, List, [], ◌∷◌, ltb, ◌==◌,
  if◌then◌else◌, arith, every, every_sound,
}
use rvvp.Core.Result.{ok, stop, assertion}
use rvvp.Irq.Order.{
  by_place, assign, create_order, to_order, get_external_iid, get_dpo, transform_vs_to_s,
  transform_s_to_vs,
}

-- The interrupt at place `k`.
pub at_place : List ℕ → ℕ → ℕ
at_place [] k = 0
at_place (iid ∷ iids) zero = iid
at_place (iid ∷ iids) (suc k) = at_place iids k

table : every 64 (λ i. ltb (create_order i) 64 && (at_place by_place (create_order i) == i)) ≡ true
unfolding every create_order at_place assign
table = refl

pub place_of : (i : ℕ) → i < 64 → (create_order i < 64) × (at_place by_place (create_order i) ≡ i)
place_of i lt = let t = every_sound 64 _ table i lt in (ground arith, ground arith)

pub to_order_unique : (i j : ℕ) → i < 64 → j < 64 → create_order i ≡ create_order j → i ≡ j
to_order_unique i j lt_i lt_j e =
    sym (place_of i lt_i).1 ∙ ap (at_place by_place) e ∙ (place_of j lt_j).1

-- Below 64 each interrupt has a place below 64, and no two have the same: the default order is
-- total.
to_order_total :
    (i j : ℕ)
    → i < 64
    → j < 64
    → (n : ℕ) × (to_order i ≡ ok n) × (n < 64) × (to_order j ≡ ok n → i ≡ j)
unfolding to_order
to_order_total i j lt_i lt_j =
    let (low, here) = place_of i lt_i in
    let (_, there) = place_of j lt_j in
    (
      create_order i,
      ground arith,
      low,
      λ same.
          let e : create_order j ≡ create_order i = ground arith in
          sym here ∙ ap (at_place by_place) (sym e) ∙ there,
    )

-- The interrupts of the virtual supervisor and those that it sees: each that has a name on the
-- supervisor's side comes back from there, and each that the supervisor's side can be given comes
-- back from the virtual one.
transform_vs_to_s-transform_s_to_vs :
    (s_iid vs_iid : ℕ)
    → (transform_s_to_vs s_iid ≡ ok (some vs_iid)) ↔ (transform_vs_to_s vs_iid ≡ ok s_iid)
unfolding transform_s_to_vs transform_vs_to_s
transform_vs_to_s-transform_s_to_vs s_iid vs_iid = (λ h. ground arith, λ h. ground arith)

pub external_iid_bound :
    (level : ℕ) {external : ℕ} → get_external_iid level ≡ ok external → external < 64
unfolding get_external_iid
external_iid_bound level e = ground arith

pub get_dpo-eq :
    (level iid external : ℕ)
    → get_external_iid level ≡ ok external
    → iid < 64
    → get_dpo level iid ≡ (
        if ltb (create_order iid) (create_order external)
        then ok 0
        else if create_order iid == create_order external
        then stop assertion
        else ok 1)
unfolding get_dpo to_order
get_dpo-eq level iid external e lt = let bound = external_iid_bound level e in rw e (ground arith)

-- For an interrupt below 64 and a level with an external interrupt: `get_dpo` returns 0 exactly if
-- the interrupt comes before the external one in the default order, 1 exactly if it comes behind,
-- and fails its assertion exactly if it is the external one.
get_dpo_iff :
    (level iid external : ℕ)
    → get_external_iid level ≡ ok external
    → iid < 64
    → ((get_dpo level iid ≡ ok 0) ↔ (create_order iid < create_order external))
      × ((get_dpo level iid ≡ ok 1) ↔ (create_order external < create_order iid))
      × ((get_dpo level iid ≡ stop assertion) ↔ (iid ≡ external))
get_dpo_iff level iid external e lt =
    let (_, here) = place_of iid lt in
    let (_, there) = place_of external (external_iid_bound level e) in
    let alone : create_order iid ≡ create_order external → iid ≡ external =
      λ q. sym here ∙ ap (at_place by_place) q ∙ there in
    let same : iid ≡ external → create_order iid ≡ create_order external = ap create_order in
    rw (get_dpo-eq level iid external e lt) (ground (arith, alone, same))
