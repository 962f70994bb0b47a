-- ===== src/Docker.antt =====
-- internal/orchestrator/docker.go: the manager of containers.
pub mod Env
pub mod Client
pub mod Launch
pub mod Connect
mod Tests
