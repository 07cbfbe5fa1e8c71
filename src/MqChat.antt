-- ===== src/MqChat.antt =====
-- The chat of two over message queues: module3/task03.
pub mod Queues
pub mod Talk
pub mod Session
pub mod Delivery
pub mod Cleanup
mod Tests
