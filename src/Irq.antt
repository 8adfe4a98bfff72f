-- ===== src/Irq.antt =====
-- vp/src/core/rv32/irq-prio.h: major interrupts in their default order, and comparable priorities.
pub mod Order
pub mod Places
pub mod Cprio
pub mod Ranks
mod Tests
