-- ===== src/Plic/Context.antt =====
-- fu540_plic: the callbacks of the context registers and of the priorities, and one round of `run`.
use rvvp.Base.{
  ℕ, zero, suc, ◌/◌, ◌%◌, Bool, true, false, not, ◌&&◌, ltb, ◌==◌, if◌then◌else◌, Option, none,
  some, List, [], ◌∷◌, min,
}
use rvvp.Core.Privilege.{supervisor_mode, machine_mode}
use rvvp.Core.Result.{Result, ok, ◌>>=◌}
use rvvp.Plic.State.{
  Plic, range_level, clear_pending, next_pending_irq, max_thr, max_prio, set_word,
}

abbrev pub is_claim_access : ℕ → Bool
is_claim_access addr = addr / 4 % 2 == 1

abbrev pub set_context : (ℕ → ℕ → ℕ) → ℕ → ℕ → ℕ → ℕ → ℕ → ℕ
set_context words hart level v hart' level' =
    if hart == hart' && level == level' then v else words hart' level'

-- `read_hartctx` for an aligned word at the local address `addr`: a claim puts the next interrupt
-- into the claim register, which is read then, and clears its pending bit.
unfoldable pub read_hartctx : ℕ → ℕ → ℕ → Plic → Result Plic
read_hartctx addr hart level s =
    if is_claim_access addr
    then (do
      irq ← next_pending_irq s hart level true
      let s' : Plic = record s { claim = set_context s.claim hart (range_level hart level) irq }
      if not (irq == 0) then clear_pending irq s' else ok s')
    else ok s

-- `write_hartctx`, behind the write of `value`: a completion clears the line of the hart (true), a
-- threshold is cut to `max_thr`.
unfoldable pub write_hartctx : ℕ → ℕ → ℕ → ℕ → Plic → Plic × Bool
write_hartctx addr hart level value s =
    let place = range_level hart level in
    if is_claim_access addr
    then (record s { claim = set_context s.claim hart place value }, true)
    else (record s { threshold = set_context s.threshold hart place (min value max_thr) }, false)

-- `write_irq_prios`, behind the write of `value`.
unfoldable pub write_irq_prios : ℕ → ℕ → Plic → Plic
write_irq_prios addr value s = record s {
  interrupt_priorities = set_word s.interrupt_priorities (addr / 4) (min value max_prio);
}

-- `has_pending_irq`: the level that is to be interrupted, if any.
unfoldable pub has_pending_irq : Plic → ℕ → Result (Option ℕ)
has_pending_irq s hart = do
  supervisor ← (if hart == 0 then ok 0 else next_pending_irq s hart supervisor_mode false)
  if ltb 0 supervisor then ok (some supervisor_mode) else (do
    machine ← next_pending_irq s hart machine_mode false
    ok (if ltb 0 machine then some machine_mode else none))

abbrev pub cons_level : ℕ → Option ℕ → List (ℕ × ℕ) → List (ℕ × ℕ)
cons_level hart none rest = rest
cons_level hart (some level) rest = (hart, level) ∷ rest

-- The lines that a round of `run` raises, for `n` harts from `hart` on.
unfoldable pub run_round : Plic → ℕ → ℕ → Result (List (ℕ × ℕ))
run_round s zero hart = ok []
run_round s (suc n) hart = do
  level ← has_pending_irq s hart
  rest ← run_round s n (suc hart)
  ok (cons_level hart level rest)
