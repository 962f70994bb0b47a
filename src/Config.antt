-- ===== src/Config.antt =====
-- internal/orchestrator/config.go: the configuration that the environment gives.
pub mod Space
pub mod Values
pub mod Lists
pub mod Fields
pub mod Default
mod Tests
