-- ===== src/Utility.antt =====
-- The library solid/utility: bit functions, checked words, and the containers.
pub mod Bits
pub mod Padding
pub mod Crc
pub mod Revert
pub mod Circular
pub mod FindCmp
pub mod Index
pub mod Search
pub mod InnerList
pub mod Queue
mod Tests
