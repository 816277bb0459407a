-- ===== src/FastPaxos/Quorums.antt =====
-- The quorums of fastpaxos/defs.go and fastpaxos/core.go.
use consensus_arena.Prelude.{ℕ, ◌/◌, ◌≤◌, ◌<◌, ◌≡◌, true, arith}
use consensus_arena.Prelude.Int.{pos}
use consensus_arena.Prelude.Bits.{bit_and-le}
use consensus_arena.ReplicaSet.{Set, contains, size, intersection}
use consensus_arena.ReplicaSet.Members.{contains-intersection}
use consensus_arena.ReplicaSet.Quorums.{IsAmong, quorums_meet, size-intersection}
use consensus_arena.FastPaxos.Defs.{fast_quorum_size}

intersection-IsAmong : (n : ℕ) (s t : Set) → IsAmong n s → IsAmong n (intersection s t)
unfolding intersection
intersection-IsAmong n s t h = omega (arith, h, bit_and-le s t)

-- Two fast quorums and a majority of n replicas have a replica in common, for n of at most 64.
pub fast_quorums_meet :
    (n : ℕ) (a b q : Set)
    → n ≤ 64
    → IsAmong n a
    → IsAmong n b
    → IsAmong n q
    → fast_quorum_size n ≤ size a
    → fast_quorum_size n ≤ size b
    → n / 2 < size q
    → (i : ℕ) × (i < n)
      × (contains a (pos i) ≡ true)
      × (contains b (pos i) ≡ true)
      × (contains q (pos i) ≡ true)
unfolding fast_quorum_size
fast_quorums_meet n a b q le ha hb hq fast_a fast_b majority =
    let both = intersection a b in
    let (i, below, in_both, in_q) =
      quorums_meet n both q le (intersection-IsAmong n a b ha) hq
        (omega (arith, size-intersection n a b ha hb)) in
    (
      i,
      below,
      ground (arith, contains-intersection a b (pos i), in_both),
      ground (arith, contains-intersection a b (pos i), in_both),
      in_q,
    )
