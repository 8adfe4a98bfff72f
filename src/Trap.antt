-- ===== src/Trap.antt =====
-- vp/src/core/rv32/iss.cpp: traps, their delegation, and the returns from their handlers.
pub mod State
pub mod Stack
pub mod Prepare
pub mod Enter
pub mod Return
pub mod Step
pub mod Jump
pub mod Delegation
pub mod Returns
pub mod Interrupts
pub mod Reach
pub mod Reservation
pub mod Exchange
pub mod RoundTrip
mod Tests
