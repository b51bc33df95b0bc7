-- ===== src/Mpipc.antt =====
-- The library solid/frame/mpipc: messages over packets of a stream connection.
pub mod Message
pub mod Packet
pub mod Pool
pub mod Protocol
pub mod Wire
pub mod Reader
pub mod Transfer
pub mod Writer
mod Tests
