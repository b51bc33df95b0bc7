-- ===== src/Frame.antt =====
-- The library solid/frame: the store of the timers, the ids of objects, and the store of shared objects.
pub mod Common
pub mod TimeStore
pub mod SharedStore
mod Tests
