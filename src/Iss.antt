-- ===== src/Iss.antt =====
-- vp/src/core/rv32/iss.cpp and iss.h: the integer instructions of the 32-bit simulator.
pub mod Alu
pub mod State
pub mod Memory
pub mod Execute
pub mod Step
pub mod Valid
pub mod Quiet
pub mod Steps
pub mod Preserve
pub mod Division
mod Tests
mod Boundary
