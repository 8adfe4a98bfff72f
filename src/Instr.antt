-- ===== src/Instr.antt =====
-- vp/src/core/common/instr.h and instr.cpp: the formats of instructions, and the decoder.
pub mod Word
pub mod Mapping
pub mod Parts
pub mod Codes
pub mod Tree
pub mod Decode
pub mod Index
pub mod Reach
pub mod Table
pub mod Fields
pub mod Immediates
pub mod Factory
pub mod Compressed
pub mod Expand
pub mod Even
pub mod Encodings
pub mod RoundTrip
pub mod Formats
pub mod Expansion
pub mod Xtinst
mod Tests
