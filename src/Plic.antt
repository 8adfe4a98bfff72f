-- ===== src/Plic.antt =====
-- vp/src/platform/common/fu540_plic.h and fu540_plic.cpp: the interrupt controller of the FU540.
pub mod State
pub mod Context
pub mod Select
pub mod Pending
mod Tests
