-- ===== src/Trap/Reservation.antt =====
-- A load reservation, which holds the bus, ends by itself.
use rvvp.Base.{
  ℕ, suc, ◌-◌, Bool, true, false, ◌≡◌, ◌≢◌, ◌==◌, not, ◌&&◌, ◌||◌, if◌then◌else◌, ltb, Bool-cases,
  inl, inr, arith, List, [], ◌∷◌, length,
}
use rvvp.Bus.Lock.{
  BusLock, unlock, lock, is_locked, Call, locks, unlocks, caller, call, calls, AllOthers,
  calls-is_locked,
}
use rvvp.Trap.State.{Hart, Callees}
use rvvp.Trap.Stack.{performance_and_sync_update, release_lr_sc_reservation}

-- A step of this hart, whose instruction is no load reserved, store conditional, atomic memory
-- operation or WFI, and which takes no trap or interrupt: other harts call the lock; the step
-- releases the bus if it writes memory, as a store does and a translation that updates a page table
-- entry (mem.h calls `atomic_unlock` behind every such write); and the step ends.
abbrev pub one_round : Callees BusLock → List Call × Bool → Hart BusLock → Hart BusLock
one_round c (cs, writes) h =
    let s = calls cs h.called in
    performance_and_sync_update c (record h { called = if writes then c.atomic_unlock s else s })

abbrev pub rounds : Callees BusLock → List (List Call × Bool) → Hart BusLock → Hart BusLock
rounds c [] h = h
rounds c (r ∷ rs) h = rounds c rs (one_round c r h)

abbrev pub EachOthers : ℕ → List (List Call × Bool) → Type 0
EachOthers id [] = Unit
EachOthers id ((cs, writes) ∷ rs) = AllOthers id cs × EachOthers id rs

abbrev pub has_write : List (List Call × Bool) → Bool
has_write [] = false
has_write ((cs, writes) ∷ rs) = writes || has_write rs

call-not_locked :
    (id : ℕ) (c : Call) (s : BusLock)
    → caller c ≢ id
    → is_locked id s ≡ false
    → is_locked id (call c s) ≡ false
unfolding call lock unlock is_locked
call-not_locked id (locks g) s other free = ground arith
call-not_locked id (unlocks g) s other free = ground arith

calls-not_locked :
    (id : ℕ) (cs : List Call) (s : BusLock)
    → AllOthers id cs
    → is_locked id s ≡ false
    → is_locked id (calls cs s) ≡ false
unfolding calls
calls-not_locked id [] s others free = free
calls-not_locked id (c ∷ cs) s (other, others) free =
    calls-not_locked id cs (call c s) others (call-not_locked id c s other free)

unlock-is_locked : (id : ℕ) (s : BusLock) → is_locked id (unlock id s) ≡ false
unfolding unlock is_locked
unlock-is_locked id s = ground arith

module _ (id : ℕ) (c : Callees BusLock)
    (unlocks_bus : (s : BusLock) → c.atomic_unlock s ≡ unlock id s) where
  free_round :
      (cs : List Call) (writes : Bool) (h : Hart BusLock)
      → AllOthers id cs
      → is_locked id h.called ≡ false
      → let h' = one_round c (cs, writes) h in
        (h'.lr_sc_counter ≡ h.lr_sc_counter - 1) × (is_locked id h'.called ≡ false)
  unfolding performance_and_sync_update release_lr_sc_reservation
  free_round cs writes h others free =
      let s = calls cs h.called in
      ground (
        arith,
        calls-not_locked id cs h.called others free,
        unlock-is_locked id s,
        unlock-is_locked id (unlock id s),
        unlocks_bus s,
        unlocks_bus (unlock id s),
      )

  free_rounds :
      (rs : List (List Call × Bool)) (h : Hart BusLock)
      → EachOthers id rs
      → is_locked id h.called ≡ false
      → ((rounds c rs h).lr_sc_counter ≡ h.lr_sc_counter - length rs)
        × (is_locked id (rounds c rs h).called ≡ false)
  free_rounds [] h others free = (omega arith, free)
  free_rounds ((cs, writes) ∷ rs) h (other, others) free =
      let (counter, free') = free_round cs writes h other free in
      let (counter', free'') = free_rounds rs (one_round c (cs, writes) h) others free' in
      (omega arith, free'')

  write_round :
      (cs : List Call) (h : Hart BusLock)
      → let h' = one_round c (cs, true) h in
        (h'.lr_sc_counter ≡ h.lr_sc_counter - 1) × (is_locked id h'.called ≡ false)
  unfolding performance_and_sync_update release_lr_sc_reservation
  write_round cs h =
      let s = calls cs h.called in
      ground (
        arith,
        unlock-is_locked id s,
        unlock-is_locked id (unlock id s),
        unlocks_bus s,
        unlocks_bus (unlock id s),
      )

  held_round :
      (cs : List Call) (h : Hart BusLock) (n : ℕ)
      → AllOthers id cs
      → h.lr_sc_counter ≡ suc n
      → is_locked id h.called ≡ true
      → let h' = one_round c (cs, false) h in
        (h'.lr_sc_counter ≡ n) × (is_locked id h'.called ≡ not (n == 0))
  unfolding performance_and_sync_update release_lr_sc_reservation
  held_round cs h n others counter held = ground (
    arith,
    (calls-is_locked id cs h.called held others).0,
    unlock-is_locked id (calls cs h.called),
    unlocks_bus (calls cs h.called),
  )

  -- A hart holds the bus for a load reserved, with its counter at `n`. Its next instructions are no
  -- load reserved, store conditional, atomic memory operation or WFI, and it takes no trap or
  -- interrupt; other harts ask anything of the lock before each of them. Then behind these
  -- instructions the hart still holds the bus exactly if they are fewer than `n` and none of them
  -- wrote memory, and the counter is less by their number, down to 0.
  pub rounds-is_locked :
      (rs : List (List Call × Bool)) (h : Hart BusLock)
      → EachOthers id rs
      → h.lr_sc_counter ≢ 0
      → is_locked id h.called ≡ true
      → (is_locked id (rounds c rs h).called
          ≡ (ltb (length rs) h.lr_sc_counter && not (has_write rs)))
        × ((rounds c rs h).lr_sc_counter ≡ h.lr_sc_counter - length rs)
  rounds-is_locked [] h others counter held = ground arith
  rounds-is_locked ((cs, true) ∷ rs) h (other, others) counter held =
      let (counter', free) = write_round cs h in
      let (counter'', free') = free_rounds rs (one_round c (cs, true) h) others free in ground arith
  rounds-is_locked ((cs, false) ∷ rs) h (other, others) counter held =
      let (counter', held') = held_round cs h (h.lr_sc_counter - 1) other (omega arith) held in
      elim (Bool-cases ((h.lr_sc_counter - 1) == 0)) [
        | inl last ↦
            let (counter'', free) =
              free_rounds rs (one_round c (cs, false) h) others (rw last at held') in
            ground arith
        | inr more ↦
            let ih =
              rounds-is_locked rs (one_round c (cs, false) h) others (ground arith)
                (rw more at held') in
            ground (arith, ih.0, ih.1)
      ]
