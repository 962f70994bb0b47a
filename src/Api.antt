-- ===== src/Api.antt =====
-- internal/api/server.go: the routes and the handlers.
pub mod Headers
pub mod Stream
pub mod Inference
pub mod Health
pub mod Routes
mod Tests
