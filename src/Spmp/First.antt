-- ===== src/Spmp/First.antt =====
-- `find_matching_entry` finds the lowest-numbered entry that an access touches.
use rvvp.Base.{
  ℕ, zero, suc, ◌+◌, ◌-◌, ◌*◌, ◌/◌, ◌%◌, ◌^◌, ◌≤◌, ◌<◌, ◌≡◌, ◌⊎◌, inl, inr, refl, true, false,
  arith,
}
use native.Mathlib.Decide.{ℕ_discrete}
use rvvp.Base.Bits.{bit_and_high}
use rvvp.Spmp.Config.{SpmpCsrs, cfg_of}
use rvvp.Spmp.Region.{
  Matching, yes_match, no_match, partial_match, Region, Found, check_matching, takes_part,
  region_of, match_entry, scan, find_matching_entry, word_of,
}

-- Both ends of the access lie in the region.
abbrev pub Inside : ℕ → ℕ → Region → Type 0
Inside addr end r = (r.start_addr ≤ addr) × (end < r.end_addr)

-- One of its ends does.
abbrev pub Touches : ℕ → ℕ → Region → Type 0
Touches addr end r =
    ((r.start_addr ≤ addr) × (addr < r.end_addr)) ⊎ ((r.start_addr ≤ end) × (end < r.end_addr))

abbrev nowhere : Region
nowhere = record { start_addr = 0; end_addr = 0 }

-- The range of entry `i`.
abbrev pub range : SpmpCsrs → ℕ → Region
range c i = region_of c i nowhere

-- Entry `i` takes part, and the access is inside its range; touches it without being inside.
abbrev pub Contains : SpmpCsrs → ℕ → ℕ → ℕ → Type 0
Contains c addr end i = (takes_part c i ≡ true) × Inside addr end (range c i)

abbrev pub Straddles : SpmpCsrs → ℕ → ℕ → ℕ → Type 0
Straddles c addr end i =
    (takes_part c i ≡ true) × Touches addr end (range c i) × ¬ Inside addr end (range c i)

abbrev pub Misses : SpmpCsrs → ℕ → ℕ → ℕ → Type 0
Misses c addr end i = takes_part c i ≡ true → ¬ Touches addr end (range c i)

match_entry-Contains :
    (c : SpmpCsrs) (addr end i : ℕ) → match_entry c addr end i ≡ yes_match → Contains c addr end i
unfolding match_entry check_matching
match_entry-Contains c addr end i h = ground arith

match_entry-Straddles :
    (c : SpmpCsrs) (addr end i : ℕ)
    → match_entry c addr end i ≡ partial_match
    → Straddles c addr end i
unfolding match_entry check_matching
match_entry-Straddles c addr end i h = ground arith

match_entry-Misses :
    (c : SpmpCsrs) (addr end i : ℕ)
    → addr ≤ end
    → match_entry c addr end i ≡ no_match
    → Misses c addr end i
unfolding match_entry check_matching
match_entry-Misses c addr end i le h = ground arith

-- An entry that takes part sets the variables of the region, whatever they were.
region_of_taken :
    (c : SpmpCsrs) (i : ℕ) (old : Region) → takes_part c i ≡ true → region_of c i old ≡ range c i
unfolding takes_part region_of
region_of_taken c i old h = ground arith

-- How a search through the entries from `i` up to `last` can end.
pub data Outcome (c : SpmpCsrs) (addr end i last : ℕ) (f : Found) : Type 0 where
  inside :
      (k : ℕ)
      → i ≤ k
      → k < last
      → ((j : ℕ) → i ≤ j → j < k → Misses c addr end j)
      → Contains c addr end k
      → f ≡ record { partial = false; nentry = k; cfg = cfg_of c k; region = range c k }
      → Outcome c addr end i last f
  straddling :
      (k : ℕ)
      → i ≤ k
      → k < last
      → ((j : ℕ) → i ≤ j → j < k → Misses c addr end j)
      → Straddles c addr end k
      → f.partial ≡ true
      → Outcome c addr end i last f
  missing :
      ((j : ℕ) → i ≤ j → j < last → Misses c addr end j)
      → f.partial ≡ false
      → f.nentry ≡ last
      → Outcome c addr end i last f

Matching-cases : (m : Matching) → (m ≡ yes_match) ⊎ ((m ≡ partial_match) ⊎ (m ≡ no_match))
Matching-cases yes_match = inl refl
Matching-cases partial_match = inr (inl refl)
Matching-cases no_match = inr (inr refl)

module _ (c : SpmpCsrs) (addr end : ℕ) (le : addr ≤ end) where
  abbrev AllMiss : ℕ → ℕ → Type 0
  AllMiss i k = (j : ℕ) → i ≤ j → j < k → Misses c addr end j

  -- A missed entry in front of the rest.
  one_more : (i k : ℕ) → Misses c addr end i → AllMiss (suc i) k → AllMiss i k
  one_more i k miss all j le_j lt = elim (ℕ_discrete j i) [
    | yes same ↦ rw same miss
    | no other ↦ all j (omega arith) lt
  ]

  later :
      (i last : ℕ) (f : Found)
      → Misses c addr end i
      → Outcome c addr end (suc i) last f
      → Outcome c addr end i last f
  later i last f miss (inside k le_k lt all here e) =
      inside k (omega arith) lt (one_more i k miss all) here e
  later i last f miss (straddling k le_k lt all here e) =
      straddling k (omega arith) lt (one_more i k miss all) here e
  later i last f miss (missing all e n) = missing (one_more i last miss all) e n

  scan-Outcome :
      (n i last : ℕ) (s : Found)
      → last ≡ i + n
      → s.partial ≡ false
      → s.nentry ≡ i
      → Outcome c addr end i last (scan c addr end n i s)
  unfolding scan
  scan-Outcome zero i last s total p e = missing (λ j le_j lt. absurd (omega arith)) p (omega arith)
  scan-Outcome (suc n) i last s total p e = elim (Matching-cases (match_entry c addr end i)) [
    | inl hit ↦
        rw (hit, scan)
          (inside i (omega arith) (omega arith) (λ j le_j lt. absurd (omega arith))
            (match_entry-Contains c addr end i hit)
            (rw (region_of_taken c i s.region (match_entry-Contains c addr end i hit).0) refl))
    | inr (inl part) ↦
        rw (part, scan)
          (straddling i (omega arith) (omega arith) (λ j le_j lt. absurd (omega arith))
            (match_entry-Straddles c addr end i part) refl)
    | inr (inr miss) ↦
        rw (miss, scan)
          (later i last _ (match_entry-Misses c addr end i le miss)
            (scan-Outcome n (suc i) last _ (omega arith) refl refl))
  ]

pub word_of-eq : (addr : ℕ) → addr < 2 ^ 64 → word_of addr ≡ addr / 4 * 4
word_of-eq addr h = bit_and_high 64 2 addr h (omega arith)

-- The words that hold the first and the last byte of an access.
abbrev pub first_word : ℕ → ℕ
first_word addr = addr / 4 * 4

abbrev pub last_word : ℕ → ℕ → ℕ
last_word addr sz = (addr + sz - 1) / 4 * 4

-- For an access of at least one byte that ends inside the 64-bit address space, the search ends in
-- one of three ways: at the lowest-numbered of the 64 entries that touches its first or last word
-- and holds both, with that entry's configuration and range; as a partial match, at the
-- lowest-numbered entry that touches but does not hold them; or behind the last entry, where none
-- touches them.
pub find_matching_entry-Outcome :
    (c : SpmpCsrs) (addr sz : ℕ) (start : Found)
    → 0 < sz
    → addr + sz ≤ 2 ^ 64
    → Outcome c (first_word addr) (last_word addr sz) 0 64 (find_matching_entry c addr sz start)
unfolding find_matching_entry
find_matching_entry-Outcome c addr sz start some_bytes fits =
    let e : (addr + sz + 2 ^ 64 - 1) % 2 ^ 64 ≡ addr + sz - 1 = omega arith in
    rw (e, word_of-eq addr (omega arith), word_of-eq (addr + sz - 1) (omega arith))
      (scan-Outcome c (first_word addr) (last_word addr sz) (omega arith) 64 0 64 _ refl refl refl)
