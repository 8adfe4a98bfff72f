-- ===== src/Clint.antt =====
-- vp/src/core/common/clint.h: the core local interruptor.
pub mod State
pub mod Round
mod Tests
