-- ===== src/SupplyChain.antt =====
-- sectors/supply_chain: the agents of the one sector that has any.
pub mod Aggregator
pub mod Weather
pub mod Sales
pub mod Production
pub mod World
pub mod Tools
pub mod Decision
pub mod Orchestrator
pub mod Alerts
pub mod Confidence
pub mod Isolation
pub mod Checkpoint
pub mod Pending
pub mod Offline
pub mod Outage
pub mod Frame
pub mod Service
pub mod Graph
pub mod Remembered
pub mod Feedback
mod Samples
mod Tests
