-- ===== src/FastPaxos.antt =====
-- The Fast Paxos engine: fastpaxos/core.go, fastpaxos/execute.go, fastpaxos/recovery.go,
-- fastpaxos/defs.go and the adapter of fastpaxos/replica.go.
pub mod Defs
pub mod Choice
pub mod Core
pub mod Normal
pub mod Recovery
pub mod Ticks
pub mod Requests
pub mod Events
pub mod Quorums
pub mod Selected
pub mod Support
pub mod Candidates
pub mod Fallback
pub mod Keeps
pub mod Monotone
