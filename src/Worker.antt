-- ===== src/Worker.antt =====
-- The SharedWorker that owns the Matrix client, ui/src/worker.
pub mod Protocol
pub mod State
pub mod Sessions
pub mod Handles
pub mod Persistence
pub mod Workspaces
pub mod Push
pub mod Requests
pub mod Server
pub mod Ports
mod Tests
mod ServerTests
