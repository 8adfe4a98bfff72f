-- ===== src/Aplic.antt =====
-- vp/src/platform/common/aplic.h: the interrupt controller that sends interrupts as messages.
pub mod State
pub mod Address
pub mod Config
pub mod Pending
pub mod Enable
pub mod Write
pub mod Deliver
pub mod Known
pub mod Bits
pub mod Effect
pub mod Refine
pub mod Round
pub mod Sent
mod Tests
