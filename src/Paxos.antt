-- ===== src/Paxos.antt =====
-- The classic Paxos engine: paxos/core.go, recovery.go and execute.go.
pub mod Defs
pub mod Normal
pub mod Recovery
pub mod Events
pub mod Keeps
pub mod Elections
pub mod Selection
pub mod Survival
pub mod Commits
pub mod Votes
pub mod Paging
pub mod Monotone
