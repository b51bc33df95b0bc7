-- ===== src/Serialization.antt =====
-- The library solid/serialization.
pub mod BinaryBasic
mod Tests
