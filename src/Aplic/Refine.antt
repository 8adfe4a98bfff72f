-- ===== src/Aplic/Refine.antt =====
-- All writes to the bits of the sources, against their effect on sets of sources.
use rvvp.Base.{◌≢◌, ℕ, ◌%◌, ◌^◌, ◌<◌, ◌≡◌, ◌⊎◌, inl, inr, arith}
use rvvp.Base.Bits.{test_bit-zero}
use rvvp.Core.Result.{ok}
use rvvp.Aplic.State.{
  initial, Aplic, setip, setipnum, in_clrip, clripnum, setie, setienum, clrie, clrienum,
  setipnum_le,
}
use rvvp.Aplic.Pending.{post_write_setip, post_write_in_clrip}
use rvvp.Aplic.Enable.{post_write_setie, post_write_clrie}
use rvvp.Aplic.Write.{post_write, write}
use rvvp.Aplic.Bits.{pending, enabled}
use rvvp.Aplic.Effect.{
  Effect, IsBounded, pending_after, enabled_after, active_known, setip_lem, setipnum_lem,
  setipnum_le_lem, in_clrip_lem, clripnum_lem, setie_lem, setienum_lem, clrie_lem, clrienum_lem,
}
use rvvp.Core.Result.{Stop, stop, ok_of_not_stop}

-- The registers whose writes set and clear bits of sources.
abbrev pub IsBitRegister : ℕ → Type 0
IsBitRegister reg =
    (reg ≡ setip)
    ⊎ (reg ≡ setipnum)
    ⊎ (reg ≡ setipnum_le)
    ⊎ (reg ≡ in_clrip)
    ⊎ (reg ≡ clripnum)
    ⊎ (reg ≡ setie)
    ⊎ (reg ≡ setienum)
    ⊎ (reg ≡ clrie)
    ⊎ (reg ≡ clrienum)

module _ (c d number_interrupts : ℕ) where
  write_never_stops :
      (reg domain idx value : ℕ) (s : Aplic)
      → IsBitRegister reg
      → idx < 32
      → (why : Stop) → write c d number_interrupts reg domain idx value s ≢ stop why
  unfolding write post_write post_write_setip post_write_in_clrip post_write_setie post_write_clrie
  write_never_stops reg domain idx value s bit_register low why = ground arith

  effect :
      (reg domain idx value : ℕ) (s s' : Aplic) (irq : ℕ)
      → IsBitRegister reg
      → value < 2 ^ 32
      → IsBounded number_interrupts s
      → write c d number_interrupts reg domain idx value s ≡ ok s'
      → Effect number_interrupts reg idx value s s' irq
  effect reg domain idx value s s' irq (inl is) small bounded e =
      rw is (setip_lem number_interrupts c d domain idx value s s' irq (rw is at e))
  effect reg domain idx value s s' irq (inr (inl is)) small bounded e =
      rw is (setipnum_lem number_interrupts c d domain idx value s s' irq (rw is at e))
  effect reg domain idx value s s' irq (inr (inr (inl is))) small bounded e =
      rw is (setipnum_le_lem number_interrupts c d domain idx value s s' irq (rw is at e))
  effect reg domain idx value s s' irq (inr (inr (inr (inl is)))) small bounded e =
      rw is (in_clrip_lem number_interrupts c d domain idx value s s' irq small (rw is at e))
  effect reg domain idx value s s' irq (inr (inr (inr (inr (inl is))))) small bounded e =
      rw is (clripnum_lem number_interrupts c d domain idx value s s' irq bounded (rw is at e))
  effect reg domain idx value s s' irq (inr (inr (inr (inr (inr (inl is)))))) small bounded e =
      rw is (setie_lem number_interrupts c d domain idx value s s' irq (rw is at e))
  effect reg domain idx value s s' irq (inr (inr (inr (inr (inr (inr (inl is))))))) small bounded
        e =
      rw is (setienum_lem number_interrupts c d domain idx value s s' irq (rw is at e))
  effect reg domain idx value s s' irq (inr (inr (inr (inr (inr (inr (inr (inl is)))))))) small
        bounded e =
      rw is (clrie_lem number_interrupts c d domain idx value s s' irq small (rw is at e))
  effect reg domain idx value s s' irq (inr (inr (inr (inr (inr (inr (inr (inr is)))))))) small
        bounded e =
      rw is (clrienum_lem number_interrupts c d domain idx value s s' irq (rw is at e))

  write_keeps_bounds :
      (reg idx value : ℕ) (s s' : Aplic)
      → IsBounded number_interrupts s
      → ((irq : ℕ) → Effect number_interrupts reg idx value s s' irq)
      → IsBounded number_interrupts s'
  unfolding pending_after enabled_after
  write_keeps_bounds reg idx value s s' bounded effects irq unknown =
      ground (arith, bounded irq unknown, effects irq, active_known number_interrupts s irq)

  -- A write of a word to a register for pending or enable bits, at one of its 32 words, returns. Where
  -- only implemented sources were pending or enabled, it changes the set of pending sources and the set
  -- of enabled sources as the register says, source by source, and only implemented sources are pending
  -- or enabled behind it.
  pub write-pending_after :
      (reg domain idx value : ℕ) (s : Aplic)
      → IsBitRegister reg
      → idx < 32
      → value < 2 ^ 32
      → IsBounded number_interrupts s
      → (s' : Aplic) × (write c d number_interrupts reg domain idx value s ≡ ok s')
        × ((irq : ℕ)
            → (pending s' irq ≡ pending_after number_interrupts reg idx value s irq)
              × (enabled s' irq ≡ enabled_after number_interrupts reg idx value s irq))
        × IsBounded number_interrupts s'
  write-pending_after reg domain idx value s bit_register low small bounded =
      let (s', e) =
        ok_of_not_stop (write c d number_interrupts reg domain idx value s)
          (write_never_stops reg domain idx value s bit_register low) in
      let effects =
        λ (irq : ℕ). effect reg domain idx value s s' irq bit_register small bounded e in
      (s', e, effects, write_keeps_bounds reg idx value s s' bounded effects)

-- No source is pending or enabled at first.
pub initial-IsBounded : (number_interrupts : ℕ) → IsBounded number_interrupts initial
unfolding initial
initial-IsBounded number_interrupts irq unknown =
    (test_bit-zero (irq % 32), test_bit-zero (irq % 32))
