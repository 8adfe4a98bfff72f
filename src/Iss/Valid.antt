-- ===== src/Iss/Valid.antt =====
-- The states that the simulator keeps, and actions that keep them.
use rvvp.Base.{
  ℕ, ◌%◌, ◌^◌, ◌<◌, ◌≡◌, refl, ◌∙◌, Bool, true, false, ◌&&◌, not, Bool-cases, inl, inr, ◌==◌,
  if◌then◌else◌, bit_and, arith,
}
use rvvp.Base.Bits.{truth, bit_not, bit_and_mask}
use rvvp.Core.Result.{Result, ok, stop, Stop, simulation_trap, SimulationTrap}
use rvvp.Iss.Alu.{word}
use rvvp.Iss.State.{
  Iss, Action, ◌>>=◌, proceed, pure, raise, read_reg, write_reg, update, get_pc, get_last_pc,
  set_lr_sc_counter, set_status, CoreExecStatus, require_isa, has_c_extension, pc_alignment_mask,
  trap_check_pc_alignment, jump, trap_check_addr_alignment,
}

-- Nothing is asked of a value.
abbrev pub Any : {A : Type 0} → A → Type 0
Any a = Unit {0}

pub word_lt : (n : ℕ) → word n < 2 ^ 32
word_lt n = omega arith

pub update-lt :
    (i v : ℕ) (regs : ℕ → ℕ)
    → ((j : ℕ) → regs j < 2 ^ 32)
    → v < 2 ^ 32
    → (j : ℕ) → update i v regs j < 2 ^ 32
update-lt i v regs old new j = elim (Bool-cases (j == i)) [
  | inl here ↦ rw here new
  | inr there ↦ rw there (old j)
]

even_bit : (n : ℕ) → n % 2 ≡ 0 → bit_and n 0x1 ≡ 0
even_bit n even = bit_and_mask n 1 ∙ even

-- A stop that is a trap, and a call that returns or ends in one.
abbrev pub IsTrap : Stop → Type 0
IsTrap why = (e : SimulationTrap) × (why ≡ simulation_trap e)

abbrev pub OnlyTraps : {A : Type 0} → Result A → Type 0
OnlyTraps (ok a) = Unit {0}
OnlyTraps (stop why) = IsTrap why

module _ {M : Type 0} where
  -- The registers hold words of 32 bits.
  abbrev pub Registers : Iss M → Type 0
  Registers s = (i : ℕ) → s.regs i < 2 ^ 32

  -- The assertion at the start of `exec_step`.
  abbrev pub Aligned : Iss M → Type 0
  Aligned s = bit_and s.pc (bit_not 32 (pc_alignment_mask s)) ≡ 0

  abbrev pub IsValid : Iss M → Type 0
  IsValid s = Registers s × (s.last_pc % 2 ≡ 0) × Aligned s

  -- What an instruction leaves alone.
  abbrev pub Same : Iss M → Iss M → Type 0
  Same s t = (t.last_pc ≡ s.last_pc) × (t.misa ≡ s.misa)

  -- After an action: on return, a value with a property in a valid state; else a trap, with the
  -- registers sound.
  abbrev pub After : {A : Type 0} → Iss M → (A → Type 0) → Result A × Iss M → Type 0
  After s P (ok a, t) = P a × IsValid t × Same s t
  After s P (stop why, t) = IsTrap why × Registers t × Same s t

  abbrev pub Keeps : {A : Type 0} → (A → Type 0) → Action M A → Type 0
  Keeps P m = (s : Iss M) → IsValid s → After s P (m s)

  -- What stays the same on the way to a state stays the same behind it.
  pub After-Same :
      {B : Type 0} (Q : B → Type 0) (s t : Iss M) (r : Result B × Iss M)
      → Same s t
      → After t Q r
      → After s Q r
  After-Same Q s t (ok b, u) (l, i) (q, v, (l', i')) = (q, v, (l' ∙ l, i' ∙ i))
  After-Same Q s t (stop e, u) (l, i) (n, v, (l', i')) = (n, v, (l' ∙ l, i' ∙ i))

  pub bind-Keeps :
      {A B : Type 0} (P : A → Type 0) (Q : B → Type 0) (m : Action M A) (k : A → Action M B)
      → Keeps P m
      → ((a : A) → P a → Keeps Q (k a))
      → Keeps Q (m >>= k)
  unfolding ◌>>=◌ proceed
  bind-Keeps {A} {B} P Q m k first next s valid = next_after (m s) (first s valid)
    where
      next_after : (r : Result A × Iss M) → After s P r → After s Q (proceed r k)
      next_after (ok a, t) (p, v, same) = After-Same Q s t (k a t) same (next a p t v)
      next_after (stop e, t) after = after

  pub pure-Keeps : {A : Type 0} (P : A → Type 0) (a : A) → P a → Keeps P (pure a)
  unfolding pure
  pure-Keeps P a p s valid = (p, valid, (refl, refl))

  pub raise-Keeps : {A : Type 0} (P : A → Type 0) (exc mtval : ℕ) → Keeps P (raise exc mtval)
  unfolding raise
  raise-Keeps P exc mtval s (regs, even, aligned) = ((_, refl), regs, (refl, refl))

  pub read_reg-Keeps : (i : ℕ) → Keeps (λ a. a < 2 ^ 32) (read_reg i)
  unfolding read_reg
  read_reg-Keeps i s valid = (valid.0 i, valid, (refl, refl))

  pub write_reg-Keeps : (i v : ℕ) → Keeps Any (write_reg i v)
  unfolding write_reg
  write_reg-Keeps i v s (regs, even, aligned) =
      (tt, (update-lt i (word v) s.regs regs (word_lt v), even, aligned), (refl, refl))

  pub get_pc-Keeps : Keeps Any get_pc
  unfolding get_pc
  get_pc-Keeps s valid = (tt, valid, (refl, refl))

  pub get_last_pc-Keeps : Keeps (λ a. a % 2 ≡ 0) get_last_pc
  unfolding get_last_pc
  get_last_pc-Keeps s valid = (valid.1, valid, (refl, refl))

  pub set_lr_sc_counter-Keeps : (f : ℕ → ℕ) → Keeps Any (set_lr_sc_counter f)
  unfolding set_lr_sc_counter
  set_lr_sc_counter-Keeps f s valid = (tt, valid, (refl, refl))

  pub set_status-Keeps : (status : CoreExecStatus) → Keeps Any (set_status status)
  unfolding set_status
  set_status-Keeps status s valid = (tt, valid, (refl, refl))

  pub require_isa-Keeps : (ext instr : ℕ) → Keeps Any (require_isa ext instr)
  unfolding require_isa
  require_isa-Keeps ext instr s valid = elim (Bool-cases (truth (bit_and s.misa ext))) [
    | inl there ↦ rw there (tt, valid, (refl, refl))
    | inr missing ↦ rw missing (raise-Keeps Any 2 instr s valid)
  ]

  pub trap_check_addr_alignment-Keeps :
      (alignment : ℕ) (is_load : Bool) (addr : ℕ)
      → Keeps Any (trap_check_addr_alignment alignment is_load addr)
  unfolding trap_check_addr_alignment
  trap_check_addr_alignment-Keeps alignment is_load addr s valid =
      elim (Bool-cases (truth (addr % alignment))) [
        | inl off ↦ rw off (raise-Keeps Any (if is_load then 4 else 6) addr s valid)
        | inr fine ↦ rw fine (tt, valid, (refl, refl))
      ]

  pub jump-Keeps : (target : ℕ) → word target % 2 ≡ 0 → Keeps Any (jump target)
  unfolding jump trap_check_pc_alignment raise
  jump-Keeps target even s (regs, last, aligned) =
      rw (even_bit (word target) even)
        (at (truth (bit_and (word target) 0x3)) (has_c_extension s) refl refl)
    where
      t : Iss M
      t = record s { pc = word target }

      aligned_c : has_c_extension s ≡ true → Aligned t
      aligned_c c = rw c (even_bit (word target) even)

      at :
          (set has_c : Bool)
          → truth (bit_and (word target) 0x3) ≡ set
          → has_c_extension s ≡ has_c
          → After s Any (if set && not has_c then raise 0 t.pc t else (ok tt, t))
      at true true l c = (tt, (regs, last, aligned_c c), (refl, refl))
      at false true l c = (tt, (regs, last, aligned_c c), (refl, refl))
      at true false l c = ((_, refl), regs, (refl, refl))
      at false false l c =
          let none_set : bit_and (word target) 0x3 ≡ 0 = ground arith in
          let here : Aligned t = rw c none_set in (tt, (regs, last, here), (refl, refl))
