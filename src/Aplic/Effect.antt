-- ===== src/Aplic/Effect.antt =====
-- What a write does to the sets of pending and of enabled sources.
use rvvp.Base.{
  Bool-cases, ℕ, ◌+◌, ◌*◌, ◌/◌, ◌%◌, ◌^◌, ◌<◌, ◌≡◌, inl, inr, refl, ap, ◌∙◌, Bool, true, false, not,
  ◌&&◌, ◌||◌, ltb, ◌==◌, if◌then◌else◌, bit_or, arith,
}
use mathlib.Core.Path.{subst}
use rvvp.Base.Bits.{truth, test_bit, test_bit-zero}
use rvvp.Core.Result.{ok}
use rvvp.Aplic.State.{
  Aplic, aplic_m_domain, sourcecfg, setip, setipnum, in_clrip, clripnum, setie, setienum, clrie,
  clrienum, setipnum_le, put_word, set_reg, set_ip, set_ie, notify, drop_pending, is_unknown,
  source_is_inactive,
}
use rvvp.Aplic.Pending.{
  known_bits, post_write_setip, make_pending, post_write_setipnum, post_write_in_clrip,
  post_write_clripnum,
}
use rvvp.Aplic.Enable.{post_write_setie, post_write_setienum, post_write_clrie, post_write_clrienum}
use rvvp.Aplic.Write.{post_write, write}
use rvvp.Aplic.Bits.{bit_in, pending, enabled, put_or, put_and_not, put_one, put_not_one}
use rvvp.Aplic.Known.{is_active, known_bits-test_bit}

-- The number of a source that a word of a register has a bit for.
abbrev pub has_bit : ℕ → ℕ → ℕ → Bool
has_bit idx value irq = (irq / 32) == idx && test_bit value (irq % 32)

module _ (number_interrupts : ℕ) where
  -- A write of `value` to word `idx` of a register, for a source that was pending or not.
  unfoldable pub pending_after : ℕ → ℕ → ℕ → Aplic → ℕ → Bool
  pending_after reg idx value s irq =
      if reg == setip
      then pending s irq || (has_bit idx value irq && is_active number_interrupts s irq)
      else if reg == setipnum || reg == setipnum_le
      then pending s irq || (value == irq && is_active number_interrupts s irq)
      else if reg == in_clrip
      then pending s irq && not (has_bit idx value irq)
      else if reg == clripnum
      then pending s irq && not (value == irq)
      else pending s irq

  unfoldable pub enabled_after : ℕ → ℕ → ℕ → Aplic → ℕ → Bool
  enabled_after reg idx value s irq =
      if reg == setie
      then enabled s irq || (has_bit idx value irq && is_active number_interrupts s irq)
      else if reg == setienum
      then enabled s irq || (value == irq && is_active number_interrupts s irq)
      else if reg == clrie
      then enabled s irq && not (has_bit idx value irq)
      else if reg == clrienum
      then enabled s irq && not (value == irq && is_active number_interrupts s irq)
      else enabled s irq

  -- Only sources that are implemented are pending or enabled.
  abbrev pub IsBounded : Aplic → Type 0
  IsBounded s =
      (irq : ℕ)
      → is_unknown number_interrupts irq ≡ true
      → (pending s irq ≡ false) × (enabled s irq ≡ false)

  pub active_known :
      (s : Aplic) (irq : ℕ)
      → is_active number_interrupts s irq ≡ true
      → is_unknown number_interrupts irq ≡ false
  unfolding source_is_inactive
  active_known s irq active = ground arith

  inactive-set_reg :
      (reg domain idx value irq : ℕ) (s : Aplic)
      → (reg == sourcecfg) ≡ false
      → source_is_inactive number_interrupts aplic_m_domain irq (set_reg reg domain idx value s)
        ≡ source_is_inactive number_interrupts aplic_m_domain irq s
  unfolding source_is_inactive set_reg
  inactive-set_reg reg domain idx value irq s other = ground arith

  -- A number that is written, for the source with that number.
  active_number :
      (reg domain idx value irq : ℕ) (s : Aplic)
      → (reg == sourcecfg) ≡ false
      → (value == irq
          && not (
              is_unknown number_interrupts value
              || source_is_inactive number_interrupts aplic_m_domain value
                  (set_reg reg domain idx 0 (set_reg reg domain idx value s))))
        ≡ (value == irq && is_active number_interrupts s irq)
  active_number reg domain idx value irq s other = elim (Bool-cases (value == irq)) [
    | inl at ↦
        let same : value ≡ irq = ground arith in
        let t : Aplic = set_reg reg domain idx irq s in
        let known = active_known s irq in
        let through =
          inactive-set_reg reg domain idx 0 irq t other
          ∙ inactive-set_reg reg domain idx irq irq s other in
        rw same (ground (arith, known, through))
    | inr off ↦ rw off
  ]

  -- The bits that are kept of a word, for the source whose bit it is.
  kept_bits :
      (reg domain idx value irq : ℕ) (s : Aplic)
      → (reg == sourcecfg) ≡ false
      → ((irq / 32) == idx
          && test_bit
              (known_bits number_interrupts idx (set_reg reg domain idx value s) 32 0 value)
              (irq % 32))
        ≡ (has_bit idx value irq && is_active number_interrupts s irq)
  kept_bits reg domain idx value irq s other =
      let t : Aplic = set_reg reg domain idx value s in
      elim (Bool-cases ((irq / 32) == idx)) [
        | inl at ↦
            let same : irq % 32 + 32 * idx ≡ irq = ground arith in
            let e =
              known_bits-test_bit number_interrupts idx t 32 0 value (irq % 32) refl
                (omega arith) in
            let e' : test_bit (known_bits number_interrupts idx t 32 0 value) (irq % 32) ≡ (
                test_bit value (irq % 32)
                && (ltb (irq % 32) 0 || is_active number_interrupts t irq)) =
              subst
                (λ (n : ℕ). test_bit (known_bits number_interrupts idx t 32 0 value) (irq % 32) ≡ (
                  test_bit value (irq % 32)
                  && (ltb (irq % 32) 0 || is_active number_interrupts t n)))
                same e in
            ground (arith, at, e', inactive-set_reg reg domain idx value irq s other)
        | inr off ↦ ground (arith, off)
      ]

  or_known :
      (words : ℕ → ℕ → ℕ) (idx known irq : ℕ)
      → bit_in
          (if truth known
            then put_word aplic_m_domain idx (bit_or (words aplic_m_domain idx) known) words
            else words)
          irq
        ≡ (bit_in words irq || ((irq / 32) == idx && test_bit known (irq % 32)))
  or_known words idx known irq = elim (Bool-cases (truth known)) [
    | inl some_bit ↦ rw some_bit (put_or words idx known irq)
    | inr no_bit ↦
        let none_set : known ≡ 0 = ground arith in
        rw none_set (ground (arith, test_bit-zero (irq % 32)))
  ]

  module _ (domain idx value : ℕ) (s s' : Aplic) where
    read_back : (reg : ℕ) → (set_reg reg domain idx value s).regs reg domain idx ≡ value
    unfolding set_reg
    read_back reg = ground arith

    post_write_setip_lem :
        (t : Aplic)
        → post_write_setip number_interrupts domain idx t ≡ ok s'
        → (s'.ip_reg ≡ (
            let known = known_bits number_interrupts idx t 32 0 (t.regs setip domain idx) in
            if truth known
            then put_word aplic_m_domain idx (bit_or (t.ip_reg aplic_m_domain idx) known) t.ip_reg
            else t.ip_reg))
          × (s'.ie_reg ≡ t.ie_reg)
    unfolding post_write_setip set_ip notify
    post_write_setip_lem t e = ground arith

    post_write_setie_lem :
        (t : Aplic)
        → post_write_setie number_interrupts domain idx t ≡ ok s'
        → (s'.ie_reg
            ≡ put_word aplic_m_domain idx
                (bit_or
                  (t.ie_reg aplic_m_domain idx)
                  (known_bits number_interrupts idx t 32 0 (t.regs setie domain idx)))
                t.ie_reg)
          × (s'.ip_reg ≡ t.ip_reg)
    unfolding post_write_setie set_ie notify
    post_write_setie_lem t e = ground arith

  -- What is shown of a state behind a write, for one source.
  abbrev pub Effect : ℕ → ℕ → ℕ → Aplic → Aplic → ℕ → Type 0
  Effect reg idx value s s' irq =
      (pending s' irq ≡ pending_after reg idx value s irq)
      × (enabled s' irq ≡ enabled_after reg idx value s irq)

  module _ (c d domain idx value : ℕ) (s s' : Aplic) (irq : ℕ) where
    pub setip_lem :
        write c d number_interrupts setip domain idx value s ≡ ok s'
        → Effect setip idx value s s' irq
    unfolding write post_write set_reg pending_after enabled_after
    setip_lem e =
        let t : Aplic = set_reg setip domain idx value s in
        let (words, same) = post_write_setip_lem domain idx value s s' t e in
        (
          ap (λ (w : ℕ → ℕ → ℕ). bit_in w irq) (rw (read_back domain idx value s s' setip) at words)
              ∙ or_known s.ip_reg idx (known_bits number_interrupts idx t 32 0 value) irq
              ∙ ap (λ (b : Bool). pending s irq || b) (kept_bits setip domain idx value irq s refl),
          ap (λ (w : ℕ → ℕ → ℕ). bit_in w irq) same,
        )

    pub setipnum_lem :
        write c d number_interrupts setipnum domain idx value s ≡ ok s'
        → Effect setipnum idx value s s' irq
    unfolding write post_write post_write_setipnum make_pending set_reg set_ip notify pending_after
        enabled_after
    setipnum_lem e = (
      ground
          (arith, put_one s.ip_reg value irq, active_number setipnum domain idx value irq s refl),
      ground arith,
    )

    pub setipnum_le_lem :
        write c d number_interrupts setipnum_le domain idx value s ≡ ok s'
        → Effect setipnum_le idx value s s' irq
    unfolding write post_write post_write_setipnum make_pending set_reg set_ip notify pending_after
        enabled_after
    setipnum_le_lem e = (
      ground (
        arith,
        put_one s.ip_reg value irq,
        active_number setipnum_le domain idx value irq s refl,
      ),
      ground arith,
    )

    pub in_clrip_lem :
        value < 2 ^ 32
        → write c d number_interrupts in_clrip domain idx value s ≡ ok s'
        → Effect in_clrip idx value s s' irq
    unfolding write post_write set_reg post_write_in_clrip set_ip pending_after enabled_after
    in_clrip_lem small e = (ground (arith, put_and_not s.ip_reg idx value irq small), ground arith)

    pub clripnum_lem :
        IsBounded s
        → write c d number_interrupts clripnum domain idx value s ≡ ok s'
        → Effect clripnum idx value s s' irq
    unfolding write post_write set_reg post_write_clripnum drop_pending set_ip pending_after
        enabled_after
    clripnum_lem bounded e =
        (ground (arith, put_not_one s.ip_reg value irq, bounded irq), ground arith)

    pub setie_lem :
        write c d number_interrupts setie domain idx value s ≡ ok s'
        → Effect setie idx value s s' irq
    unfolding write post_write set_reg pending_after enabled_after
    setie_lem e =
        let t : Aplic = set_reg setie domain idx value s in
        let (words, same) = post_write_setie_lem domain idx value s s' t e in
        (
          ap (λ (w : ℕ → ℕ → ℕ). bit_in w irq) same,
          ap (λ (w : ℕ → ℕ → ℕ). bit_in w irq) (rw (read_back domain idx value s s' setie) at words)
              ∙ put_or s.ie_reg idx (known_bits number_interrupts idx t 32 0 value) irq
              ∙ ap (λ (b : Bool). enabled s irq || b) (kept_bits setie domain idx value irq s refl),
        )

    pub setienum_lem :
        write c d number_interrupts setienum domain idx value s ≡ ok s'
        → Effect setienum idx value s s' irq
    unfolding write post_write set_reg post_write_setienum set_ie notify pending_after enabled_after
    setienum_lem e = (
      ground arith,
      ground
          (arith, put_one s.ie_reg value irq, active_number setienum domain idx value irq s refl),
    )

    pub clrie_lem :
        value < 2 ^ 32
        → write c d number_interrupts clrie domain idx value s ≡ ok s'
        → Effect clrie idx value s s' irq
    unfolding write post_write set_reg post_write_clrie set_ie pending_after enabled_after
    clrie_lem small e = (ground arith, ground (arith, put_and_not s.ie_reg idx value irq small))

    pub clrienum_lem :
        write c d number_interrupts clrienum domain idx value s ≡ ok s'
        → Effect clrienum idx value s s' irq
    unfolding write post_write set_reg post_write_clrienum set_ie pending_after enabled_after
    clrienum_lem e = (
      ground arith,
      ground (
        arith,
        put_not_one s.ie_reg value irq,
        active_number clrienum domain idx value irq s refl,
      ),
    )
