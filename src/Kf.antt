-- ===== src/Kf.antt =====
-- The package kf.
pub mod ElementList
pub mod State
pub mod Access
pub mod Quiet
pub mod Leaves
pub mod View
pub mod Outcome
pub mod Local
pub mod About
pub mod Placed
pub mod PinnedMaps
pub mod Processes
pub mod ConfigMaps
pub mod Artifacts
pub mod Lifecycle
pub mod RootProgram
pub mod Linking
pub mod Placement
pub mod Equality
pub mod Removal
pub mod Update
pub mod Deploy
pub mod Report
pub mod Monitor
pub mod Configs
pub mod Close
pub mod Metrics
pub mod MetricsMonitor
