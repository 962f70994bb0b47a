-- ===== src/Metrics.antt =====
-- internal/metrics: what is recorded of a request.
pub mod Recorder
pub mod Status
pub mod Middleware
pub mod Context
mod Tests
