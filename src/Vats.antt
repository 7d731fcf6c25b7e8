-- ===== src/Vats.antt =====
-- lib/ag-solo/vats: the small services that run in vats. A child for each.
pub mod Registry
pub mod Scratch
pub mod Pubsub
pub mod Pledger
