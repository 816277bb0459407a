-- ===== src/Curp.antt =====
-- The CURP engine: curp/core.go, curp/execute.go, curp/recovery.go, curp/conflicts.go and the adapter
-- of curp/replica.go, and the completion of curp/client.go.
pub mod Conflicts
pub mod Counts
pub mod Indexed
pub mod Holding
pub mod Exact
pub mod Defs
pub mod Normal
pub mod Recovery
pub mod Events
pub mod Members
pub mod Witness
pub mod Commuting
pub mod Client
pub mod Survival
pub mod Keeps
pub mod Monotone
