-- ===== src/TcpChat.antt =====
-- The TCP group chat with file transfer: module3/task07.
pub mod Packet
pub mod Io
pub mod Wire
pub mod Stream
pub mod Server
pub mod Client
pub mod Transfer
pub mod Delivery
pub mod Broadcast
pub mod Session
pub mod Conversation
pub mod Startup
mod Tests
