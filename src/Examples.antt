-- ===== src/Examples.antt =====
-- Concrete inputs at which the theorems of the other modules apply.
pub mod Wire
pub mod Master
pub mod Disk
pub mod Threads
pub mod Events
pub mod Plugins
pub mod Requests
pub mod Network
pub mod Checks
