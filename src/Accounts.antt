-- ===== src/Accounts.antt =====
-- The accounts of a browser and what signs in, unlocks and signs out: ui/src/hooks/useAuth.ts. Each
-- operation runs to its end before the next one.
pub mod State
pub mod Storage
pub mod Sealing
pub mod Recovery
pub mod Restore
pub mod SignIn
pub mod Leaving
pub mod Workspaces
pub mod Pool
pub mod Keeps
pub mod Stored
pub mod Changes
pub mod History
pub mod Runs
pub mod Steps
pub mod Unlocked
pub mod Rejected
mod Merged
pub mod Bootstrap
mod Tests
