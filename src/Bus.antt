-- ===== src/Bus.antt =====
-- vp/src/platform/common/bus.h: the bus that routes transactions, and its lock.
pub mod Ports
pub mod Lock
mod Tests
