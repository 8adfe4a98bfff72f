-- ===== src/Mmu.antt =====
-- vp/src/core/common/mmu.h: the page-table walk and its translation buffer.
pub mod Pte
pub mod Walk
pub mod Spec
mod Paddr
mod Rounds
pub mod Correct
pub mod Tlb
pub mod Reuse
pub mod Whole
pub mod Faults
mod Tests
