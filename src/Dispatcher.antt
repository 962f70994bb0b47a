-- ===== src/Dispatcher.antt =====
-- internal/orchestrator/dispatcher.go: the queues, the workers and the hand-over of results.
pub mod Queue
pub mod Submit
pub mod Job
pub mod Headers
pub mod Handover
pub mod Abandoned
pub mod Progress
mod Tests
