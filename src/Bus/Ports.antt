-- ===== src/Bus/Ports.antt =====
-- bus.h: `PortMapping` and `SimpleBus`, up to the call of the target.
use rvvp.Base.{
  ℕ, zero, suc, ◌+◌, ◌-◌, ◌≤◌, ◌<◌, ◌≡◌, ◌⊎◌, inl, inr, refl, Bool, true, false, ◌&&◌, leb,
  if◌then◌else◌, Option, none, some, arith, Bool-cases,
}
use native.Mathlib.Decide.{ℕ_discrete}

pub record PortMapping : Type 0 where
  pub start : ℕ
  pub end : ℕ

abbrev pub contains : PortMapping → ℕ → Bool
contains p addr = leb p.start addr && leb addr p.end

abbrev pub global_to_local : PortMapping → ℕ → ℕ
global_to_local p addr = addr - p.start

-- The loop of `decode`, with `n` targets left from `i` on; `none` is -1.
unfoldable pub decode : (ℕ → PortMapping) → ℕ → ℕ → ℕ → Option ℕ
decode ports addr zero i = none
decode ports addr (suc n) i =
    let later = decode ports addr n (suc i) in if contains (ports i) addr then some i else later

-- `transport`: the target and the address that it is given; `none` is TLM_ADDRESS_ERROR_RESPONSE.
unfoldable pub transport : (ℕ → PortMapping) → ℕ → ℕ → Option (ℕ × ℕ)
transport ports targets addr = elim (decode ports addr targets 0) [
  | none ↦ none
  | some id ↦ some (id, global_to_local (ports id) addr)
]

-- How the search through the targets from `i` up to `last` ends.
abbrev Decoded : (ℕ → PortMapping) → ℕ → ℕ → ℕ → Option ℕ → Type 0
Decoded ports addr i last none = (j : ℕ) → i ≤ j → j < last → contains (ports j) addr ≡ false
Decoded ports addr i last (some id) =
    (i ≤ id)
    × (id < last)
    × (contains (ports id) addr ≡ true)
    × ((j : ℕ) → i ≤ j → j < id → contains (ports j) addr ≡ false)

skipped :
    (ports : ℕ → PortMapping) (addr i last : ℕ) (o : Option ℕ)
    → contains (ports i) addr ≡ false
    → Decoded ports addr (suc i) last o
    → Decoded ports addr i last o
skipped ports addr i last none miss all =
    λ j le lt. elim (ℕ_discrete j i) [ yes same ↦ rw same miss | no other ↦ all j (omega arith) lt ]
skipped ports addr i last (some id) miss (le, lt, here, all) = (
  omega arith,
  lt,
  here,
  λ j le_j lt_j. elim (ℕ_discrete j i) [
    | yes same ↦ rw same miss
    | no other ↦ all j (omega arith) lt_j
  ],
)

decode-Decoded :
    (ports : ℕ → PortMapping) (addr n i last : ℕ)
    → last ≡ i + n
    → Decoded ports addr i last (decode ports addr n i)
unfolding decode
decode-Decoded ports addr zero i last e = λ j le lt. absurd (omega arith)
decode-Decoded ports addr (suc n) i last e = elim (Bool-cases (contains (ports i) addr)) [
  | inl here ↦ rw (here, decode) (omega arith, omega arith, here, λ j le lt. absurd (omega arith))
  | inr miss ↦
      rw (miss, decode)
        (skipped ports addr i last _ miss (decode-Decoded ports addr n (suc i) last (omega arith)))
]

-- An address is in a range from its start up to its end, both included.
abbrev pub IsIn : PortMapping → ℕ → Type 0
IsIn p addr = (p.start ≤ addr) × (addr ≤ p.end)

contains-IsIn : (p : PortMapping) (addr : ℕ) → contains p addr ≡ true → IsIn p addr
contains-IsIn p addr h = ground arith

not-IsIn : (p : PortMapping) (addr : ℕ) → contains p addr ≡ false → ¬ IsIn p addr
not-IsIn p addr h (low, high) = ground arith

-- How `transport` answers for a result of the search.
abbrev Routed : (ℕ → PortMapping) → ℕ → ℕ → Option (ℕ × ℕ) → Type 0
Routed ports targets addr r =
    ((r ≡ none) × ((j : ℕ) → j < targets → ¬ IsIn (ports j) addr))
    ⊎ ((id : ℕ) × (offset : ℕ) × (r ≡ some (id, offset))
        × (id < targets)
        × IsIn (ports id) addr
        × ((ports id).start + offset ≡ addr)
        × ((j : ℕ) → j < id → ¬ IsIn (ports j) addr))

-- A transaction goes to the first target in whose range, from its start up to and with its end, the
-- address lies, with the offset of the address from that start; it is answered by an address error
-- exactly where the address lies in no target's range.
pub transport_routes :
    (ports : ℕ → PortMapping) (targets addr : ℕ)
    → ((transport ports targets addr ≡ none) × ((j : ℕ) → j < targets → ¬ IsIn (ports j) addr))
      ⊎ ((id : ℕ) × (offset : ℕ) × (transport ports targets addr ≡ some (id, offset))
          × (id < targets)
          × IsIn (ports id) addr
          × ((ports id).start + offset ≡ addr)
          × ((j : ℕ) → j < id → ¬ IsIn (ports j) addr))
unfolding transport
transport_routes ports targets addr =
    route (decode ports addr targets 0) (decode-Decoded ports addr targets 0 targets (omega arith))
  where
    route :
        (o : Option ℕ)
        → Decoded ports addr 0 targets o
        → Routed ports targets addr
            (elim o [ none ↦ none | some id ↦ some (id, global_to_local (ports id) addr) ])
    route none all = inl (refl, λ j lt. not-IsIn (ports j) addr (all j (omega arith) lt))
    route (some id) (le, lt, here, all) =
        let inside = contains-IsIn (ports id) addr here in
        inr (
          id,
          addr - (ports id).start,
          refl,
          lt,
          inside,
          omega arith,
          λ j lt_j. not-IsIn (ports j) addr (all j (omega arith) lt_j),
        )
