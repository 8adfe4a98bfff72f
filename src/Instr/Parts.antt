-- ===== src/Instr/Parts.antt =====
-- instr.h: `enum Parts`, the numbers that the decoder compares the fields of an instruction with.
mod Base
mod Wide
mod Float
pub use Base.*
pub use Wide.*
pub use Float.*
