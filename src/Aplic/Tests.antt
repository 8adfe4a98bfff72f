-- ===== src/Aplic/Tests.antt =====
-- Concrete inputs for the theorems on the controller that sends messages.
use rvvp.Base.{
  zero, suc, ℕ, ◌<◌, ◌≡◌, ◌⊎◌, inl, inr, refl, true, false, not, ◌&&◌, ◌==◌, if◌then◌else◌, [], ◌∷◌,
  arith,
}
use rvvp.Base.Bits.{test_bit}
use rvvp.Core.Result.{ok}
use rvvp.Aplic.State.{
  Aplic, initial, aplic_m_domain, domaincfg, sourcecfg, setie, target, mmsiaddrcfg,
  source_is_inactive,
}
use rvvp.Aplic.Address.{get_m_target_address}
use rvvp.Aplic.Write.{write}
use rvvp.Aplic.Deliver.{hart_get_next_pending_interrupt, run}
use rvvp.Aplic.Bits.{pending, enabled}
use rvvp.Aplic.Effect.{IsBounded, pending_after, enabled_after}
use rvvp.Aplic.Refine.{initial-IsBounded, write-pending_after}
use rvvp.Aplic.Round.{is_on, is_ready, hart_get_next_pending_interrupt-is_ready}
use rvvp.Aplic.Sent.{is_edge, run-is_ready}

-- Sources 3 and 5 are sensitive to an edge, enabled and pending; the target of 3 is number 9 of hart 0.
abbrev two_ready : Aplic
two_ready = record {
  regs = λ r d i.
      if r == domaincfg
      then 0x80000104
      else if r == sourcecfg
      then 4
      else if r == mmsiaddrcfg
      then 0x31000
      else if r == target
      then 0x809
      else 0;
  ie_reg = λ d i. if i == 0 then 0x28 else 0;
  ip_reg = λ d i. if i == 0 then 0x28 else 0;
  sent = [];
  notified = true;
}

write-pending_after_example :
    (s' : Aplic) × (write 1 2 8 setie 0 0 0xff initial ≡ ok s')
    × ((irq : ℕ)
        → (pending s' irq ≡ pending_after 8 setie 0 0xff initial irq)
          × (enabled s' irq ≡ enabled_after 8 setie 0 0xff initial irq))
    × IsBounded 8 s'
write-pending_after_example =
    write-pending_after 1 2 8 setie 0 0 0xff initial (inr (inr (inr (inr (inr (inl refl))))))
      (omega arith) (omega arith) (initial-IsBounded 8)

hart_get_next_pending_interrupt-is_ready_example :
    (r : ℕ) × (hart_get_next_pending_interrupt 8 aplic_m_domain two_ready ≡ r)
    × (((r ≡ 0) × ((is_on two_ready ≡ false) ⊎ ((irq : ℕ) → is_ready 8 two_ready irq ≡ false)))
        ⊎ ((is_on two_ready ≡ true)
            × (is_ready 8 two_ready r ≡ true)
            × ((irq : ℕ) → irq < r → is_ready 8 two_ready irq ≡ false)))
hart_get_next_pending_interrupt-is_ready_example =
    hart_get_next_pending_interrupt-is_ready 8 two_ready (omega arith)

three_ready : is_ready 8 two_ready 3 ≡ true
unfolding is_ready source_is_inactive test_bit
three_ready = refl

below_three : (irq : ℕ) → irq < 3 → is_ready 8 two_ready irq ≡ false
unfolding is_ready source_is_inactive test_bit
below_three zero low = refl
below_three (suc zero) low = refl
below_three (suc (suc zero)) low = refl
below_three (suc (suc (suc irq))) low = absurd (omega arith)

its_address : get_m_target_address 1 0 two_ready ≡ ok 0x31000000
unfolding get_m_target_address
its_address = refl

run-is_ready_example :
    (s' : Aplic) × (run 8 1 two_ready ≡ ok s')
    × (s'.sent ≡ (0x31000000, 9) ∷ [])
    × (s'.notified ≡ false)
    × ((irq : ℕ)
        → (pending s' irq ≡ (pending two_ready irq && not (3 == irq && is_edge two_ready 3)))
          × (enabled s' irq ≡ enabled two_ready irq))
run-is_ready_example =
    run-is_ready 8 1 two_ready 3 0x31000000 refl refl three_ready below_three its_address
