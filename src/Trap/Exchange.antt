-- ===== src/Trap/Exchange.antt =====
-- The exchange of stack pointers, done twice.
use rvvp.Base.{
  Bool, if◌then◌else◌, ◌==◌, true, false, sym, refl, inl, inr, ℕ, false, ◌≡◌, inl, inr, arith,
}
use rvvp.Core.Privilege.{
  supervisor_mode, machine_mode, virtual_supervisor_mode, privilege_level_to_v,
}
use rvvp.Core.Result.{ok}
use rvvp.Trap.State.{Hart}
use rvvp.Trap.Stack.{
  swap_mtsp, swap_vstsp, swap_stsp, swap_htsp, swap_from_v, swap_from_user,
  stsp_swap_sp_on_mode_change,
}
use mathlib.Core.Path.{subst}
use rvvp.Base.Bits.{truth}
use rvvp.Base.{Bool-cases, not, ◌&&◌}

module _ {M : Type 0} where
  -- The registers that the exchange of stack pointers reads and writes.
  abbrev pub Stack : Hart M → Hart M → Type 0
  Stack h h' =
      (h'.sp ≡ h.sp)
      × (h'.m.tsp ≡ h.m.tsp)
      × (h'.s.tsp ≡ h.s.tsp)
      × (h'.vs.tsp ≡ h.vs.tsp)
      × (h'.htsp ≡ h.htsp)
      × (h'.mtsp_enabled ≡ h.mtsp_enabled)
      × (h'.vgtsp_enabled ≡ h.vgtsp_enabled)
      × (h'.htsp_enabled ≡ h.htsp_enabled)
      × (h'.stsp_enabled ≡ h.stsp_enabled)

  -- An exchange under a test, done twice, with other registers changed in between.
  twice_if :
      (swap : Hart M → Hart M) (flag : Hart M → Bool) (q : Bool) (h y : Hart M)
      → (Stack (swap h) y → Stack h (swap y))
      → (Stack (swap h) y → flag y ≡ flag h)
      → (Stack h y → flag y ≡ flag h)
      → Stack (if flag h && q then swap h else h) y
      → Stack h (if flag y && q then swap y else y)
  twice_if swap flag q h y twice swapped kept same = elim (Bool-cases (flag h && q)) [
    | inl yes_swap ↦
        let s : Stack (swap h) y = rw yes_swap at same in rw (swapped s, yes_swap) (twice s)
    | inr no_swap ↦ let s : Stack h y = rw no_swap at same in rw (kept s, no_swap) s
  ]

  m_twice :
      (p : ℕ) (h y : Hart M)
      → Stack (if h.mtsp_enabled && not (p == machine_mode) then swap_mtsp h else h) y
      → Stack h (if y.mtsp_enabled && not (p == machine_mode) then swap_mtsp y else y)
  unfolding swap_mtsp
  m_twice p h y =
      twice_if swap_mtsp (λ k. k.mtsp_enabled) (not (p == machine_mode)) h y
        (λ (sp, m, s, vs, htsp, f, g, i, j). (m, sp, s, vs, htsp, f, g, i, j)) (λ s. s.5) (λ s. s.5)

  vs_twice :
      (p : ℕ) (h y : Hart M)
      → Stack (if h.vgtsp_enabled && not (p == virtual_supervisor_mode) then swap_vstsp h else h) y
      → Stack h (if y.vgtsp_enabled && not (p == virtual_supervisor_mode) then swap_vstsp y else y)
  unfolding swap_vstsp
  vs_twice p h y =
      twice_if swap_vstsp (λ k. k.vgtsp_enabled) (not (p == virtual_supervisor_mode)) h y
        (λ (sp, m, s, vs, htsp, f, g, i, j). (vs, m, s, sp, htsp, f, g, i, j)) (λ s. s.6) (λ s. s.6)

  v_twice : (p : ℕ) (h y : Hart M) → Stack (swap_from_v p h) y → Stack h (swap_from_v p y)
  unfolding swap_from_v swap_htsp
  v_twice p h y =
      twice_if swap_htsp (λ k. k.htsp_enabled) (truth (privilege_level_to_v p)) h y
        (λ (sp, m, s, vs, htsp, f, g, i, j). (htsp, m, s, vs, sp, f, g, i, j)) (λ s. s.7) (λ s. s.7)

  user_twice : (p : ℕ) (h y : Hart M) → Stack (swap_from_user p h) y → Stack h (swap_from_user p y)
  unfolding swap_from_user swap_stsp
  user_twice p h y =
      twice_if swap_stsp (λ k. k.stsp_enabled)
        (not (truth (privilege_level_to_v p)) && not (p == supervisor_mode)) h y
        (λ (sp, m, s, vs, htsp, f, g, i, j). (s, m, sp, vs, htsp, f, g, i, j)) (λ s. s.8) (λ s. s.8)

  -- One of the two exchanges of the supervisor's mode does nothing.
  user_only : (p : ℕ) (h : Hart M) → truth (privilege_level_to_v p) ≡ false → swap_from_v p h ≡ h
  unfolding swap_from_v
  user_only p h user =
      rw user (elim (Bool-cases h.htsp_enabled) [ inl on ↦ rw on refl | inr off ↦ rw off refl ])

  v_only : (p : ℕ) (h : Hart M) → truth (privilege_level_to_v p) ≡ true → swap_from_user p h ≡ h
  unfolding swap_from_user
  v_only p h v =
      rw v (elim (Bool-cases h.stsp_enabled) [ inl on ↦ rw on refl | inr off ↦ rw off refl ])

  s_twice :
      (p : ℕ) (h y : Hart M)
      → Stack (swap_from_user p (swap_from_v p h)) y
      → Stack h (swap_from_user p (swap_from_v p y))
  s_twice p h y same = elim (Bool-cases (truth (privilege_level_to_v p))) [
    | inl v ↦
        subst (λ (w : Hart M). Stack h w) (sym (v_only p (swap_from_v p y) v))
          (v_twice p h y (subst (λ (w : Hart M). Stack w y) (v_only p (swap_from_v p h) v) same))
    | inr u ↦
        subst (λ (w : Hart M). Stack h (swap_from_user p w)) (sym (user_only p y u))
          (user_twice p h y
            (subst (λ (w : Hart M). Stack (swap_from_user p w) y) (user_only p h u) same))
  ]

  -- The exchange of a mode, as a function.
  exchanged : ℕ → ℕ → Hart M → Hart M
  unfolding swap_mtsp swap_vstsp swap_from_v swap_from_user
  exchanged t p h =
      if t == machine_mode
      then if h.mtsp_enabled && not (p == machine_mode) then swap_mtsp h else h
      else if t == virtual_supervisor_mode
      then if h.vgtsp_enabled && not (p == virtual_supervisor_mode) then swap_vstsp h else h
      else swap_from_user p (swap_from_v p h)

  exchanged-Stack : (t p : ℕ) (h y : Hart M) → Stack (exchanged t p h) y → Stack h (exchanged t p y)
  unfolding exchanged
  exchanged-Stack t p h y same = elim (Bool-cases (t == machine_mode)) [
    | inl m ↦ rw m (m_twice p h y (rw m at same))
    | inr other ↦ elim (Bool-cases (t == virtual_supervisor_mode)) [
      | inl vs ↦ rw (other, vs) (vs_twice p h y (rw (other, vs) at same))
      | inr s ↦ rw (other, s) (s_twice p h y (rw (other, s) at same))
    ]
  ]

  swap-exchanged :
      (t p : ℕ) (h x : Hart M) → stsp_swap_sp_on_mode_change t p h ≡ ok x → x ≡ exchanged t p h
  unfolding stsp_swap_sp_on_mode_change exchanged
  swap-exchanged t p h x e = ground arith

  pub exchange_twice :
      (t p : ℕ) (h x y z : Hart M)
      → stsp_swap_sp_on_mode_change t p h ≡ ok x
      → Stack x y
      → stsp_swap_sp_on_mode_change t p y ≡ ok z
      → Stack h z
  exchange_twice t p h x y z there same back =
      subst (λ (w : Hart M). Stack h w) (sym (swap-exchanged t p y z back))
        (exchanged-Stack t p h y
          (subst (λ (w : Hart M). Stack w y) (swap-exchanged t p h x there) same))
