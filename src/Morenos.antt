-- ===== src/Morenos.antt =====
-- The scheduler model of the Morenos directory.
pub mod Settings
pub mod Utility
pub mod Timeline
pub mod Query
pub mod ControlCommand
pub mod ScanPair
pub mod Signals
pub mod ModelState
pub mod PriorityQueue
pub mod EventQueue
pub mod CommandProcessor
pub mod Placement
pub mod Scheduler
pub mod Engine
mod Tests
