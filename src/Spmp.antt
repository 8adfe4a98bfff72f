-- ===== src/Spmp.antt =====
-- vp/src/core/common/spmp.h: the supervisor's physical memory protection of the 32-bit core.
pub mod Config
pub mod Region
pub mod Access
pub mod Check
pub mod Rules
pub mod Napot
pub mod First
pub mod Again
pub mod Granted
mod Tests
