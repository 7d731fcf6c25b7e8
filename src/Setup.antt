-- ===== src/Setup.antt =====
-- The setup program: commands of setup/main.js, and helpers of setup/run.js.
pub mod Version
pub mod Shell
pub mod Status
pub mod Placement
pub mod World
pub mod Commands
pub mod Machines
pub mod SetJson
pub mod Hosts
pub mod Bootstrap
pub mod Prepare
