-- ===== src/RawUdp.antt =====
-- The echo service over raw UDP sockets: module3/task09.
pub mod Packet
pub mod Checksum
pub mod Clients
pub mod Server
pub mod Echo
pub mod Client
pub mod Loop
pub mod Room
pub mod Counting
pub mod Startup
mod Tests
