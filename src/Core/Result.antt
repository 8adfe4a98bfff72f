-- ===== src/Core/Result.antt =====
-- How a call ends in the source: it returns, throws a `SimulationTrap` (trap.h), throws a
-- `std::runtime_error`, or stops at a failed `assert`.
use rvvp.Base.{ℕ, ◌≡◌, ◌≢◌, refl, ◌⊎◌, inl, inr, Bool, true, false}

-- `MemoryAccessType` of protected_access.h
pub data AccessType : Type 0 where
  fetch load store : AccessType

-- `SimulationTrap`: the arguments of `raise_trap`.
pub record SimulationTrap : Type 0 where
  pub reason : ℕ
  pub mtval : ℕ
  pub mtval2_htval : ℕ

pub data Stop : Type 0 where
  simulation_trap : SimulationTrap → Stop
  runtime_error : Stop
  assertion : Stop

pub data Result {ℓ} (A : Type ℓ) : Type ℓ where
  ok : A → Result A
  stop : Stop → Result A

infixl 5 ◌>>=◌
infixl 5 ◌>>◌
abbrev pub ◌>>=◌ {ℓ μ} : {A : Type ℓ} {B : Type μ} → Result A → (A → Result B) → Result B
stop why >>= k = stop why
ok x >>= k = k x

-- `assert(b)`
abbrev pub check : Bool → Result (Unit {0})
check true = ok tt
check false = stop assertion

abbrev pub ◌>>◌ {ℓ} : {B : Type ℓ} → Result (Unit {0}) → Result B → Result B
first >> second = first >>= λ _. second

-- `raise_trap(exc, mtval)`
abbrev pub raise_trap {ℓ} : {A : Type ℓ} → ℕ → ℕ → Result A
raise_trap exc mtval =
    stop (simulation_trap (record { reason = exc; mtval = mtval; mtval2_htval = 0 }))

-- A bind that succeeded, taken apart.
pub >>=-eq-ok {ℓ μ} :
    {A : Type ℓ} {B : Type μ} (m : Result A) (f : A → Result B) {y : B}
    → (m >>= f) ≡ ok y
    → (x : A) × (m ≡ ok x) × (f x ≡ ok y)
>>=-eq-ok (stop why) f returned = cc
>>=-eq-ok (ok x) f returned = (x, refl, returned)

-- A bind that stopped, taken apart.
pub >>=-eq-stop {ℓ κ} :
    {A : Type ℓ} {B : Type κ} (m : Result A) (f : A → Result B) {e : Stop}
    → (m >>= f) ≡ stop e
    → (m ≡ stop e) ⊎ ((a : A) × (m ≡ ok a) × (f a ≡ stop e))
>>=-eq-stop (ok a) f h = inr (a, refl, h)
>>=-eq-stop (stop e) f h = inl (cc h)

-- And put together.
pub >>=-ok {ℓ μ} :
    {A : Type ℓ} {B : Type μ} (m : Result A) (f : A → Result B) {x : A} {r : Result B}
    → m ≡ ok x
    → f x ≡ r
    → (m >>= f) ≡ r
>>=-ok (ok y) f returned rest = cc
>>=-ok (stop why) f returned rest = cc

-- What stops nowhere returns.
pub ok_of_not_stop {ℓ} :
    {A : Type ℓ} (m : Result A) → ((why : Stop) → m ≢ stop why) → (x : A) × (m ≡ ok x)
ok_of_not_stop (ok x) never = (x, refl)
ok_of_not_stop (stop why) never = absurd (never why refl)
