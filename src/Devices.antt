-- ===== src/Devices.antt =====
-- Two small kernel modules that hand a text back: module5/task2 (a file in /proc) and module5/task4 (a
-- character device).
pub mod Proc
pub mod Chardev
pub mod Leds
pub mod Netlink
pub mod Loading
mod Tests
