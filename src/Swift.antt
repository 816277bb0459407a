-- ===== src/Swift.antt =====
-- The Swift engine: the quorum families and ballots of swift/quorum.go.
pub mod Quorums
pub mod Families
