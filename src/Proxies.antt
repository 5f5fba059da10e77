-- ===== src/Proxies.antt =====
-- A tab's stand-ins for the objects of the wasm module (ui/src/worker/workerWorkspace.ts and
-- workerSession.ts).
pub mod Calls
pub mod Accepted
pub mod Workspace
pub mod Session
pub mod Subscribed
mod Tests
