-- ===== src/Aplic/Known.antt =====
-- The loop that keeps the bits of active sources, against its meaning bit by bit.
use rvvp.Base.{
  ℕ, zero, suc, ◌+◌, ◌*◌, ◌^◌, ◌<◌, ◌≡◌, Bool, true, false, not, ◌&&◌, ◌||◌, ltb, ◌==◌,
  if◌then◌else◌, bit_and, arith,
}
use rvvp.Base.Bits.{truth, bit_not, test_bit, truth-bit_and-pow, clear_bit, low_bits}
use rvvp.Aplic.State.{Aplic, aplic_m_domain, source_is_inactive, is_unknown}
use rvvp.Aplic.Pending.{known_bits}

module _ (number_interrupts : ℕ) where
  -- A source of the machine domain that is implemented and active.
  abbrev pub is_active : Aplic → ℕ → Bool
  is_active s irq = not (source_is_inactive number_interrupts aplic_m_domain irq s)

  unknown_inactive :
      (s : Aplic) (irq : ℕ) → is_unknown number_interrupts irq ≡ true → is_active s irq ≡ false
  unfolding source_is_inactive
  unknown_inactive s irq unknown = ground arith

  -- One round of the loop that does not end it.
  abbrev dropped : ℕ → Aplic → ℕ → ℕ → ℕ
  dropped idx s ii reg =
      if not (truth (bit_and reg (2 ^ ii)))
      then reg
      else if (ii + 32 * idx) == 0
      then bit_and reg (bit_not 32 (2 ^ 0))
      else if source_is_inactive number_interrupts aplic_m_domain (ii + 32 * idx) s
      then bit_and reg (bit_not 32 (2 ^ ii))
      else reg

  dropped-test_bit :
      (idx : ℕ) (s : Aplic) (ii reg k : ℕ)
      → ii < 32
      → k < 32
      → test_bit (dropped idx s ii reg) k
        ≡ (test_bit reg k && (not (k == ii) || is_active s (ii + 32 * idx)))
  dropped-test_bit idx s ii reg k low lt = ground (
    arith,
    truth-bit_and-pow reg ii,
    clear_bit reg ii k low lt,
    clear_bit reg 0 k (omega arith) lt,
    unknown_inactive s (ii + 32 * idx),
  )

  pub known_bits-test_bit :
      (idx : ℕ) (s : Aplic) (n ii reg k : ℕ)
      → ii + n ≡ 32
      → k < 32
      → test_bit (known_bits number_interrupts idx s n ii reg) k
        ≡ (test_bit reg k && (ltb k ii || is_active s (k + 32 * idx)))
  unfolding known_bits
  known_bits-test_bit idx s zero ii reg k total lt = ground arith
  known_bits-test_bit idx s (suc n) ii reg k total lt =
      let ih = known_bits-test_bit idx s n (suc ii) (dropped idx s ii reg) k (omega arith) lt in
      ground (
        arith,
        ih,
        dropped-test_bit idx s ii reg k (omega arith) lt,
        truth-bit_and-pow reg ii,
        low_bits reg ii k,
        unknown_inactive s (k + 32 * idx),
      )
