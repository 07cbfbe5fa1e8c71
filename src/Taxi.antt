-- ===== src/Taxi.antt =====
-- The taxi dispatcher and its drivers: module3/task10.
pub mod Driver
pub mod Timing
pub mod Dispatcher
pub mod Commands
pub mod Requests
pub mod Answers
mod Tests
