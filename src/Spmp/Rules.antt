-- ===== src/Spmp/Rules.antt =====
-- What the permission rules of spmp.h keep apart.
use rvvp.Base.{ℕ, ◌≡◌, Bool, true, false, arith}
use rvvp.Core.Privilege.{user_mode, supervisor_mode}
use rvvp.Core.Result.{fetch, load, store}
use rvvp.Spmp.Config.{cfg_s}
use rvvp.Spmp.Access.{
  is_access_allowed, allowed_by_user_rule, allowed_by_supervisor_rule, check_rwx_permission,
}

-- No configuration lets the supervisor both write and execute; it executes only where S is set;
-- user code writes only where S is clear; and where S is clear and sum too, what the supervisor may
-- load user code may load, and what the supervisor may store to user code may load.
pub is_access_allowed_separates :
    (sum : Bool) (cfg : ℕ)
    → (is_access_allowed sum supervisor_mode cfg store ≡ true
        → is_access_allowed sum supervisor_mode cfg fetch ≡ false)
      × (is_access_allowed sum supervisor_mode cfg fetch ≡ true → cfg_s cfg ≡ true)
      × (is_access_allowed sum user_mode cfg store ≡ true → cfg_s cfg ≡ false)
      × (cfg_s cfg ≡ false
          → is_access_allowed false supervisor_mode cfg load ≡ true
          → is_access_allowed sum user_mode cfg load ≡ true)
      × (cfg_s cfg ≡ false
          → is_access_allowed false supervisor_mode cfg store ≡ true
          → is_access_allowed sum user_mode cfg load ≡ true)
unfolding is_access_allowed allowed_by_user_rule allowed_by_supervisor_rule check_rwx_permission
is_access_allowed_separates sum cfg =
    (ground arith, ground arith, ground arith, ground arith, ground arith)
