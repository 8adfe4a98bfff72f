-- ===== src/Bus/Tests.antt =====
-- Concrete inputs for the theorems on the bus and its lock.
use rvvp.Base.{
  ℕ, ◌+◌, ◌<◌, ◌≡◌, ◌≢◌, ◌⊎◌, refl, true, ◌==◌, if◌then◌else◌, none, some, [], ◌∷◌, arith,
}
use rvvp.Bus.Ports.{PortMapping, IsIn, transport, transport_routes}
use rvvp.Bus.Lock.{BusLock, locks, unlocks, lock, is_locked, calls, calls-is_locked}

abbrev two_ports : ℕ → PortMapping
two_ports i =
    if i == 0
    then record { start = 0x1000; end = 0x1fff }
    else record { start = 0x8000; end = 0xffff }

transport_routes_example :
    ((transport two_ports 2 0x8010 ≡ none) × ((j : ℕ) → j < 2 → ¬ IsIn (two_ports j) 0x8010))
    ⊎ ((id : ℕ) × (offset : ℕ) × (transport two_ports 2 0x8010 ≡ some (id, offset))
        × (id < 2)
        × IsIn (two_ports id) 0x8010
        × ((two_ports id).start + offset ≡ 0x8010)
        × ((j : ℕ) → j < id → ¬ IsIn (two_ports j) 0x8010))
transport_routes_example = transport_routes two_ports 2 0x8010

abbrev held : BusLock
held = record { locked = true; owner = 1 }

held_by_one : is_locked 1 held ≡ true
unfolding is_locked
held_by_one = refl

calls-is_locked_example :
    (is_locked 1 (calls (locks 0 ∷ unlocks 2 ∷ []) held) ≡ true)
    × ((g : ℕ) → g ≢ 1 → lock g (calls (locks 0 ∷ unlocks 2 ∷ []) held) ≡ none)
calls-is_locked_example =
    calls-is_locked 1 (locks 0 ∷ unlocks 2 ∷ []) held held_by_one
      ((λ h. absurd (omega arith)), ((λ h. absurd (omega arith)), tt))
