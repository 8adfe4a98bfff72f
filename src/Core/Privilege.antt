-- ===== src/Core/Privilege.antt =====
-- vp/src/core/common/irq_if.h: privilege levels are small numbers, with the V bit at bit 2.
use rvvp.Base.{ℕ, ◌*◌, ◌/◌, ◌^◌, Bool, ◌||◌, bit_and, bit_or, ◌==◌, if◌then◌else◌}

abbrev pub user_mode : ℕ
user_mode = 0

abbrev pub supervisor_mode : ℕ
supervisor_mode = 1

abbrev pub machine_mode : ℕ
machine_mode = 3

abbrev pub virtual_user_mode : ℕ
virtual_user_mode = 4

abbrev pub virtual_supervisor_mode : ℕ
virtual_supervisor_mode = 5

-- `PrivilegeLevelToPP`
unfoldable pub privilege_level_to_pp : ℕ → ℕ
privilege_level_to_pp priv = bit_and priv 3

-- `PrivilegeLevelToV`
unfoldable pub privilege_level_to_v : ℕ → ℕ
privilege_level_to_v priv = bit_and priv 4 / 2 ^ 2

-- `VPPToPrivilegeLevel`: there is no virtual machine mode.
unfoldable pub vpp_to_privilege_level : ℕ → ℕ → ℕ
vpp_to_privilege_level v pp = if pp == machine_mode then pp else bit_or (v * 2 ^ 2) pp

unfoldable pub is_irq_capable_level : ℕ → Bool
is_irq_capable_level level =
    level == machine_mode || level == supervisor_mode || level == virtual_supervisor_mode
