-- ===== src/Base/Bits.antt =====
-- The bit operations at variables: one equation for the lowest digit, masks, fields, and the group
-- laws of exclusive or.
mod Step
mod Mask
mod Xor
pub use Step.*
pub use Mask.*
pub use Xor.*
