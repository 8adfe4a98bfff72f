-- ===== src/Base/Bits.antt =====
-- Machine words as native numbers: tests of one bit, and the laws of `&`, `|`, `^` and `~` at
-- variables. The children are passed on.
mod Digits
mod Test
mod Mask
mod Algebra
mod Single
unfoldable pub use Test.*
pub use Mask.*
pub use Algebra.*
pub use Single.*
