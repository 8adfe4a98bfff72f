-- ===== src/Bus/Lock.antt =====
-- bus.h: `BusLock`, which makes lr and sc, and the atomic instructions, exclusive.
use rvvp.Base.{
  ℕ, ◌≡◌, ◌≢◌, Bool, true, false, not, ◌&&◌, ◌==◌, if◌then◌else◌, Option, none, some, List, [], ◌∷◌,
  arith,
}

pub record BusLock : Type 0 where
  pub locked : Bool
  pub owner : ℕ

-- `lock`; `none` waits for the lock to be released, which another thread does.
unfoldable pub lock : ℕ → BusLock → Option BusLock
lock hart_id s =
    if s.locked && not (hart_id == s.owner)
    then none
    else some (record { locked = true; owner = hart_id })

unfoldable pub unlock : ℕ → BusLock → BusLock
unlock hart_id s = if s.locked && s.owner == hart_id then record s { locked = false } else s

unfoldable pub is_locked : ℕ → BusLock → Bool
is_locked hart_id s = s.locked && s.owner == hart_id

-- What a hart may ask of the lock.
pub data Call : Type 0 where
  locks unlocks : ℕ → Call

abbrev pub caller : Call → ℕ
caller (locks h) = h
caller (unlocks h) = h

-- A call that waits leaves the lock as it is.
abbrev pub or_wait : BusLock → Option BusLock → BusLock
or_wait s none = s
or_wait s (some s') = s'

unfoldable pub call : Call → BusLock → BusLock
call (locks h) s = or_wait s (lock h s)
call (unlocks h) s = unlock h s

unfoldable pub calls : List Call → BusLock → BusLock
calls [] s = s
calls (c ∷ cs) s = calls cs (call c s)

abbrev pub AllOthers : ℕ → List Call → Type 0
AllOthers h [] = Unit
AllOthers h (c ∷ cs) = (caller c ≢ h) × AllOthers h cs

call_others : (h : ℕ) (c : Call) (s : BusLock) → is_locked h s ≡ true → caller c ≢ h → call c s ≡ s
unfolding call lock unlock is_locked
call_others h (locks g) s held other = ground arith
call_others h (unlocks g) s held other = ground arith

waits : (h g : ℕ) (s : BusLock) → is_locked h s ≡ true → g ≢ h → lock g s ≡ none
unfolding lock is_locked
waits h g s held other = ground arith

-- While a hart holds the lock, no sequence of calls by other harts takes it away or releases it, and
-- behind it every other hart that asks for the lock still waits.
pub calls-is_locked :
    (h : ℕ) (cs : List Call) (s : BusLock)
    → is_locked h s ≡ true
    → AllOthers h cs
    → (is_locked h (calls cs s) ≡ true) × ((g : ℕ) → g ≢ h → lock g (calls cs s) ≡ none)
unfolding calls
calls-is_locked h [] s held others = (held, λ g other. waits h g s held other)
calls-is_locked h (c ∷ cs) s held (other, others) =
    rw (call_others h c s held other) (calls-is_locked h cs s held others)
