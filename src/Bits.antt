-- ===== src/Bits.antt =====
-- The laws of `&`, `|` and `^` on words of any width, that the bit code of `p25/` is read by. They
-- are proved from the lowest binary digit up.
mod Digits
mod Fields
mod Low
mod Xor
pub use Fields.*
pub use Low.*
pub use Xor.*
