-- ===== src/Core.antt =====
-- What the parts of a hart share: vp/src/core/common/irq_if.h (privilege levels),
-- core_defs.h, protected_access.h, trap.h and the exception codes of rv32/trap-codes.h.
pub mod Privilege
pub mod Result
