-- ===== src/Aplic/Bits.antt =====
-- Pending and enabled sources as sets of numbers: what each write, and a wire, does to the sets.
use rvvp.Base.{
  ℕ, ◌/◌, ◌%◌, ◌^◌, ◌<◌, ◌≡◌, Bool, not, ◌&&◌, ◌||◌, ◌==◌, if◌then◌else◌, bit_and, bit_or, arith,
}
use rvvp.Base.Bits.{
  bit_not, test_bit, test_bit-bit_or, test_bit-bit_and, test_bit-bit_not, set_bit, clear_bit,
}
use rvvp.Aplic.State.{Aplic, aplic_m_domain, put_word}

-- The bit of a source in the words of the machine domain.
abbrev pub bit_in : (ℕ → ℕ → ℕ) → ℕ → Bool
bit_in words irq = test_bit (words aplic_m_domain (irq / 32)) (irq % 32)

abbrev pub pending : Aplic → ℕ → Bool
pending s irq = bit_in s.ip_reg irq

abbrev pub enabled : Aplic → ℕ → Bool
enabled s irq = bit_in s.ie_reg irq

-- A word put in, by what is known of its bits.
put_known :
    (words : ℕ → ℕ → ℕ) (idx v irq : ℕ)
    → bit_in (put_word aplic_m_domain idx v words) irq
      ≡ (if (irq / 32) == idx then test_bit v (irq % 32) else bit_in words irq)
put_known words idx v irq = ground arith

module _ (words : ℕ → ℕ → ℕ) where
  pub put_or :
      (idx v irq : ℕ)
      → bit_in (put_word aplic_m_domain idx (bit_or (words aplic_m_domain idx) v) words) irq
        ≡ (bit_in words irq || ((irq / 32) == idx && test_bit v (irq % 32)))
  put_or idx v irq = ground (arith, test_bit-bit_or (words aplic_m_domain idx) v (irq % 32))

  pub put_and_not :
      (idx v irq : ℕ)
      → v < 2 ^ 32
      → bit_in
          (put_word aplic_m_domain idx (bit_and (words aplic_m_domain idx) (bit_not 32 v)) words)
          irq
        ≡ (bit_in words irq && not ((irq / 32) == idx && test_bit v (irq % 32)))
  put_and_not idx v irq small = ground (
    arith,
    test_bit-bit_and (words aplic_m_domain idx) (bit_not 32 v) (irq % 32),
    test_bit-bit_not 32 v (irq % 32) small (omega arith),
  )

  pub put_one :
      (n irq : ℕ)
      → bit_in
          (put_word aplic_m_domain
            (n / 32)
            (bit_or (words aplic_m_domain (n / 32)) (2 ^ (n % 32)))
            words)
          irq
        ≡ (bit_in words irq || n == irq)
  put_one n irq = ground (arith, set_bit (words aplic_m_domain (n / 32)) (n % 32) (irq % 32))

  pub put_not_one :
      (n irq : ℕ)
      → bit_in
          (put_word aplic_m_domain
            (n / 32)
            (bit_and (words aplic_m_domain (n / 32)) (bit_not 32 (2 ^ (n % 32))))
            words)
          irq
        ≡ (bit_in words irq && not (n == irq))
  put_not_one n irq = ground (
    arith,
    clear_bit (words aplic_m_domain (n / 32)) (n % 32) (irq % 32) (omega arith) (omega arith),
  )
