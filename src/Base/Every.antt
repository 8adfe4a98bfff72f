-- ===== src/Base/Every.antt =====
-- A test of all numbers below a bound, for proofs by evaluation.
use Prim.Native.Nat.{ℕ, zero, suc, ◌<◌}
use mathlib.Core.Path.{◌≡◌}
use mathlib.Core.Bool.{Bool, true, ◌&&◌}
use native.Mathlib.Decide.{ℕ_discrete}
use native.Mathlib.Omega.{arith}

-- A test of all numbers below `n`.
unfoldable pub every : ℕ → (ℕ → Bool) → Bool
every zero test = true
every (suc n) test = test n && every n test

pub every_sound : (n : ℕ) (test : ℕ → Bool) → every n test ≡ true → (i : ℕ) → i < n → test i ≡ true
unfolding every
every_sound zero test h i lt = absurd (omega arith)
every_sound (suc n) test h i lt = elim (ℕ_discrete i n) [
  | yes last ↦ rw last (ground arith)
  | no other ↦ every_sound n test (ground arith) i (omega arith)
]
