-- ===== src/Irq/Order.antt =====
-- irq-prio.h: `MajorOrderHolder` and `major_irq`; the interrupt numbers are those of trap-codes.h.
use rvvp.Base.{ℕ, suc, Bool, ◌||◌, Option, none, some, List, [], ◌∷◌, ltb, ◌==◌, if◌then◌else◌}
use rvvp.Core.Privilege.{supervisor_mode, machine_mode, virtual_supervisor_mode}
use rvvp.Core.Result.{Result, ok, stop, assertion, check, ◌>>=◌, ◌>>◌}

abbrev pub max_interrupts_num : ℕ
max_interrupts_num = 64

abbrev pub order_min : ℕ
order_min = 63

abbrev pub order_max : ℕ
order_max = 0

-- The interrupts that the code names.
abbrev pub exc_s_software_interrupt : ℕ
exc_s_software_interrupt = 1

abbrev pub exc_vs_software_interrupt : ℕ
exc_vs_software_interrupt = 2

abbrev pub exc_s_timer_interrupt : ℕ
exc_s_timer_interrupt = 5

abbrev pub exc_vs_timer_interrupt : ℕ
exc_vs_timer_interrupt = 6

abbrev pub exc_s_external_interrupt : ℕ
exc_s_external_interrupt = 9

abbrev pub exc_vs_external_interrupt : ℕ
exc_vs_external_interrupt = 10

abbrev pub exc_m_external_interrupt : ℕ
exc_m_external_interrupt = 11

-- The interrupts to which `create_order` gives the places 0, 1, 2 and so on: M software and timer
-- are 3 and 7, guest external 12, counter overflow 13, debug trace 17, bus error 23, RAS 35 and 43,
-- overtemperature 45, the watchdog 48.
abbrev pub by_place : List ℕ
by_place =
    47 ∷ 23 ∷ 46 ∷ 45 ∷ 22 ∷ 44 ∷ 43 ∷ 21 ∷ 42 ∷ 41 ∷ 20 ∷ 40 ∷ 11 ∷ 3 ∷ 7 ∷ 9 ∷ 1 ∷ 5 ∷ 12 ∷ 10 ∷ 2
    ∷ 6 ∷ 13 ∷ 39 ∷ 19 ∷ 38 ∷ 37 ∷ 18 ∷ 36 ∷ 35 ∷ 17 ∷ 34 ∷ 33 ∷ 16 ∷ 32 ∷ 24 ∷ 25 ∷ 26 ∷ 27 ∷ 28
    ∷ 29 ∷ 30 ∷ 31 ∷ 48 ∷ 49 ∷ 50 ∷ 51 ∷ 52 ∷ 53 ∷ 54 ∷ 55 ∷ 56 ∷ 57 ∷ 58 ∷ 59 ∷ 60 ∷ 61 ∷ 62 ∷ 63
    ∷ 0 ∷ 4 ∷ 8 ∷ 14 ∷ 15 ∷ []

-- The assignments of `create_order`, from the place `k` on, to an array that is zero at first.
unfoldable pub assign : List ℕ → ℕ → (ℕ → ℕ) → ℕ → ℕ
assign [] k array = array
assign (iid ∷ iids) k array = assign iids (suc k) (λ i. if i == iid then k else array i)

unfoldable pub create_order : ℕ → ℕ
unfolding assign
create_order = assign by_place 0 (λ _. 0)

unfoldable pub to_order : ℕ → Result ℕ
to_order iid = if ltb iid max_interrupts_num then ok (create_order iid) else stop assertion

abbrev pub is_valid : ℕ → Bool
is_valid iid = ltb iid max_interrupts_num

unfoldable pub is_external_iid : ℕ → Bool
is_external_iid iid =
    iid == exc_m_external_interrupt
    || iid == exc_s_external_interrupt
    || iid == exc_vs_external_interrupt

unfoldable pub get_external_iid : ℕ → Result ℕ
get_external_iid level =
    if level == machine_mode
    then ok exc_m_external_interrupt
    else if level == supervisor_mode
    then ok exc_s_external_interrupt
    else if level == virtual_supervisor_mode
    then ok exc_vs_external_interrupt
    else stop assertion

-- `enum dpo`: 0 is higher than an external interrupt, 1 is lower.
unfoldable pub get_dpo : ℕ → ℕ → Result ℕ
get_dpo target_level iid = do
  check (is_valid iid)
  external ← get_external_iid target_level
  external_irq_order ← to_order external
  lookup_irq_order ← to_order iid
  if ltb lookup_irq_order external_irq_order
      then ok 0
      else if lookup_irq_order == external_irq_order
      then stop assertion
      else ok 1

unfoldable pub transform_vs_to_s : ℕ → Result ℕ
transform_vs_to_s vs_iid = do
  check (is_valid vs_iid)
  if vs_iid == exc_vs_external_interrupt
      then ok exc_s_external_interrupt
      else if vs_iid == exc_vs_timer_interrupt
      then ok exc_s_timer_interrupt
      else if vs_iid == exc_vs_software_interrupt
      then ok exc_s_software_interrupt
      else if ltb exc_m_external_interrupt vs_iid
      then ok vs_iid
      else stop assertion

-- `none` for the pair of `false` and 0.
unfoldable pub transform_s_to_vs : ℕ → Result (Option ℕ)
transform_s_to_vs s_iid = do
  check (is_valid s_iid)
  if s_iid == exc_s_external_interrupt
      then ok (some exc_vs_external_interrupt)
      else if s_iid == exc_s_timer_interrupt
      then ok (some exc_vs_timer_interrupt)
      else if s_iid == exc_s_software_interrupt
      then ok (some exc_vs_software_interrupt)
      else if ltb exc_m_external_interrupt s_iid
      then ok (some s_iid)
      else ok none
