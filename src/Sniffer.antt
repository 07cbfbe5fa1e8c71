-- ===== src/Sniffer.antt =====
-- The sniffer of UDP packets: module3/task08.
pub mod Parse
pub mod Bounds
pub mod Log
pub mod Capture
pub mod Main
pub mod Cleanup
mod Tests
