-- ===== src/Spmp/Access.antt =====
-- spmp.h: `check_rwx_permission` and `is_access_allowed`.
use rvvp.Base.{ℕ, Bool, false, not, ◌&&◌, ◌==◌, if◌then◌else◌}
use rvvp.Core.Result.{AccessType, fetch, load, store}
use rvvp.Core.Privilege.{user_mode, supervisor_mode}
use rvvp.Mmu.Walk.{is_fetch, is_load, is_store}
use rvvp.Spmp.Config.{cfg_r, cfg_w, cfg_x, cfg_s}

unfoldable pub check_rwx_permission : ℕ → AccessType → Bool
check_rwx_permission cfg fetch = cfg_x cfg
check_rwx_permission cfg load = cfg_r cfg
check_rwx_permission cfg store = cfg_w cfg

-- The rules with S clear, at privilege level `mode`.
unfoldable pub allowed_by_user_rule : Bool → ℕ → ℕ → AccessType → Bool
allowed_by_user_rule sum mode cfg type =
    if not (cfg_r cfg) && cfg_w cfg && cfg_x cfg
    then not (is_fetch type)
    else if not (cfg_r cfg) && cfg_w cfg && not (cfg_x cfg)
    then (if mode == supervisor_mode then not (is_fetch type) else is_load type)
    else if mode == supervisor_mode
    then (if sum
        then (if not (is_fetch type) then check_rwx_permission cfg type else false)
        else false)
    else check_rwx_permission cfg type

-- The rules with S set.
unfoldable pub allowed_by_supervisor_rule : ℕ → ℕ → AccessType → Bool
allowed_by_supervisor_rule mode cfg type =
    if cfg_r cfg && cfg_w cfg && cfg_x cfg
    then is_load type
    else if not (cfg_r cfg) && cfg_w cfg && cfg_x cfg
    then (if mode == user_mode then is_fetch type else not (is_store type))
    else if not (cfg_r cfg) && cfg_w cfg && not (cfg_x cfg)
    then is_fetch type
    else if not (cfg_r cfg) && not (cfg_w cfg) && not (cfg_x cfg)
    then false
    else if mode == user_mode
    then false
    else check_rwx_permission cfg type

-- `is_access_allowed`, with `sum` and the level `prv` of the core.
unfoldable pub is_access_allowed : Bool → ℕ → ℕ → AccessType → Bool
is_access_allowed sum prv cfg type =
    if cfg_s cfg
    then allowed_by_supervisor_rule prv cfg type
    else allowed_by_user_rule sum prv cfg type
