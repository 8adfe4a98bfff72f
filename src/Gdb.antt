-- ===== src/Gdb.antt =====
-- vp/src/core/common/gdb-mc/libgdb: packets of the GDB remote protocol.
pub mod Text
pub mod Checksum
pub mod Runlen
pub mod Runs
pub mod Buffer
pub mod Escape
pub mod Response
mod Tests
