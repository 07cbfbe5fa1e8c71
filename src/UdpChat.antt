-- ===== src/UdpChat.antt =====
-- The group chat over UDP broadcast: module3/task06.
pub mod Packet
pub mod Chat
pub mod Delivery
pub mod Session
pub mod Conversation
pub mod Startup
pub mod Tests
