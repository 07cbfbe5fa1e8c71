-- ===== src/Blacklist.antt =====
-- The netfilter module with a blacklist of addresses: module5/task6/nf.c.
pub mod Hook
pub mod Rules
pub mod Commands
pub mod History
mod Tests
