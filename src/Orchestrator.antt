-- ===== src/Orchestrator.antt =====
-- internal/orchestrator/orchestrator.go: the scheduler of containers.
pub mod State
pub mod SlotId
pub mod Load
pub mod Select
pub mod Plan
pub mod Slots
pub mod Maintenance
pub mod Snapshot
pub mod Ready
pub mod Reserved
pub mod Cycle
pub mod Forward
mod Tests
