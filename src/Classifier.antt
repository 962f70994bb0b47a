-- ===== src/Classifier.antt =====
-- internal/orchestrator/classifier.go: what the body of a request says about its class.
pub mod Text
pub mod Image
pub mod Payload
mod Tests
