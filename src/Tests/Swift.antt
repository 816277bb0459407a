-- ===== src/Tests/Swift.antt =====
-- Runs of the quorum families of swift/quorum.go, for three replicas and quorums of two.
use consensus_arena.Prelude.{◌≡◌, refl, true, [], some, arith}
use consensus_arena.Prelude.Int.{int_eq, pos, ◌+ℤ◌, ◌-ℤ◌, ◌*ℤ◌, div_ℤ, int32, uint64}
use consensus_arena.Prelude.Maps.{find, put}
use consensus_arena.ReplicaSet.{with, remove, contains, and_not}
use consensus_arena.Swift.Quorums.{
  store, subsets_loop, subsets, new_quorum_set, active_quorum, leader_of, ballot_in, ballot_of,
  same_higher,
}
use consensus_arena.Swift.Families.{active_quorum-ballot_of}

-- The second quorum of replica 1, {1, 2}, has ballot 4.
active_quorum-ballot_of_example :
    (active_quorum (pos 4) (new_quorum_set (pos 2) 3) ≡ some 6)
    × (leader_of (pos 4) 3 ≡ pos 1)
    × (contains 6 (pos 1) ≡ true)
unfolding new_quorum_set subsets subsets_loop store with remove contains and_not find put ballot_of
    ballot_in leader_of ◌-ℤ◌ ◌+ℤ◌ ◌*ℤ◌ int32 uint64
active_quorum-ballot_of_example =
    active_quorum-ballot_of (pos 2) 3 1 4 6 (omega arith) (omega arith) refl

-- A ballot that should be higher than 1 is 0.
same_higher_is_lower :
    same_higher (pos 0) (pos 1) (record { qs = new_quorum_set (pos 2) 3; ballots = [] })
    ≡ some (pos 0)
unfolding same_higher new_quorum_set subsets subsets_loop store with remove contains and_not find
    put leader_of div_ℤ ◌-ℤ◌ ◌+ℤ◌ ◌*ℤ◌ int32 uint64
same_higher_is_lower = refl
