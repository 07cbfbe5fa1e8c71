-- ===== src/Copier.antt =====
-- The file copier of module3/task01: a parent that reads a file and a child that writes the copy.
pub mod Loops
pub mod Processes
pub mod Copy
pub mod Delivery
pub mod Args
pub mod Release
pub mod ReleaseChild
mod Tests
