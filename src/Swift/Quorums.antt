-- ===== src/Swift/Quorums.antt =====
-- The leader-containing quorum families and the ballots of swift/quorum.go.
use consensus_arena.Prelude.{
  ℕ, zero, suc, ◌+◌, ◌*◌, ◌/◌, ◌%◌, true, not, ◌||◌, List, [], ◌∷◌, Option, none, some, get_or,
  ◌==◌, if◌then◌else◌, length,
}
use consensus_arena.Prelude.Int.{
  int_eq, ℤ, pos, negsuc, sub_ℕ, pos_part, ◌+ℤ◌, ◌-ℤ◌, ◌*ℤ◌, ◌==ℤ◌, ltb_ℤ, div_ℤ, int32,
}
use consensus_arena.Prelude.Maps.{Map, find, put}
use consensus_arena.ReplicaSet.{Set, with, remove, contains, size, all, covers, max_size}

-- Majority and ThreeQuarters
abbrev pub majority_of : ℕ → ℕ
majority_of n = n / 2 + 1

abbrev pub three_quarters_of : ℕ → ℕ
three_quarters_of n = 3 * n / 4 + 1

abbrev pub QuorumsOfLeader : Type 0
QuorumsOfLeader = Map ℤ Set

abbrev pub QuorumSet : Type 0
QuorumSet = Map ℤ QuorumsOfLeader

abbrev pub quorums_of : ℤ → QuorumSet → QuorumsOfLeader
quorums_of leader qs = get_or (find leader qs) []

-- Go's remainder cuts towards zero, like its division.
abbrev pub rem_ℤ : ℤ → ℕ → ℤ
rem_ℤ (pos a) n = pos (a % n)
rem_ℤ (negsuc a) n = sub_ℕ 0 (suc a % n)

-- Leader and NextBallotOf
unfoldable pub leader_of : ℤ → ℕ → ℤ
leader_of ballot n = rem_ℤ ballot n

unfoldable pub next_ballot_of : ℤ → ℤ → ℕ → ℤ
next_ballot_of id ballot n = int32 (int32 (int32 (div_ℤ ballot n +ℤ pos 1) *ℤ pos n) +ℤ id)

-- A quorum goes to the family of each of its members among `left` replicas from `id` on, under the
-- next index.
unfoldable pub store : ℕ → ℕ → Set → QuorumSet → QuorumSet
store zero id q qs = qs
store (suc left) id q qs =
    let l = quorums_of (pos id) qs in
    store left (suc id) q
      (if contains q (pos id) then put (pos id) (put (pos (length l)) q l) qs else qs)

-- The loop of `subsets` over `left` replicas from `i` on: each joins the set, the sets with it come
-- next, and it leaves the set again. `wanted` is the number of members that the set still lacks.
unfoldable pub subsets_loop : ℕ → ℕ → ℕ → ℤ → Set → QuorumSet → QuorumSet
subsets_loop n zero i wanted q qs = qs
subsets_loop n (suc left) i wanted q qs =
    let q' = with q (pos i) in
    let rest = wanted -ℤ pos 1 in
    let stored = if rest ==ℤ pos 0 then store n 0 q' qs else qs in
    subsets_loop n left (suc i) wanted (remove q' (pos i))
      (subsets_loop n left (suc i) rest q' stored)

unfoldable pub subsets : ℕ → ℤ → QuorumSet → QuorumSet
subsets n wanted qs = subsets_loop n n 0 wanted 0 (if wanted ==ℤ pos 0 then store n 0 0 qs else qs)

-- An empty family for each of n replicas.
abbrev pub empty_families : ℕ → ℕ → QuorumSet
empty_families zero id = []
empty_families (suc left) id = (pos id, []) ∷ empty_families left (suc id)

unfoldable pub new_quorum_set : ℤ → ℕ → QuorumSet
new_quorum_set wanted n = subsets n wanted (empty_families n 0)

-- A division by zero is a panic, and a missing quorum the empty set.
unfoldable pub active_quorum : ℤ → QuorumSet → Option Set
active_quorum ballot qs =
    let l = quorums_of (leader_of ballot (length qs)) qs in
    if length qs == 0 || length l == 0
    then none
    else some (get_or (find (rem_ℤ (div_ℤ ballot (length qs)) (length l)) l) 0)

-- The loop of `BallotOf` over a family.
unfoldable pub ballot_in : ℤ → ℕ → Set → QuorumsOfLeader → ℤ
ballot_in leader n q [] = negsuc 0
ballot_in leader n q ((index, s) ∷ l) =
    let rest = ballot_in leader n q l in
    if s == q then int32 (int32 (index *ℤ pos n) +ℤ leader) else rest

unfoldable pub ballot_of : ℤ → Set → QuorumSet → ℤ
ballot_of leader q qs = ballot_in leader (length qs) q (quorums_of leader qs)

-- `QuorumSystem`
pub record QuorumSystem : Type 0 where
  pub qs : QuorumSet
  pub ballots : List ℤ

abbrev pub nth_ballot : ℕ → List ℤ → ℤ
nth_ballot i [] = negsuc 0
nth_ballot zero (b ∷ ballots) = b
nth_ballot (suc i) (b ∷ ballots) = nth_ballot i ballots

-- BallotAt. A negative index is a panic.
unfoldable pub ballot_at : ℤ → QuorumSystem → Option ℤ
ballot_at (pos i) sys = some (nth_ballot i sys.ballots)
ballot_at (negsuc i) sys = none

unfoldable pub same_higher : ℤ → ℤ → QuorumSystem → Option ℤ
same_higher same_as higher_than sys =
    let n = length sys.qs in
    let m = length (quorums_of (leader_of same_as n) sys.qs) in
    if n == 0 || m == 0
    then none
    else some (int32 (same_as +ℤ int32 (int32 (div_ℤ higher_than m *ℤ pos m) *ℤ pos n)))

-- NewQuorumSystem: `none` is its error.
unfoldable pub new_quorum_system : ℤ → ℤ → Set → ℤ → Option QuorumSystem
new_quorum_system wanted n initial leader =
    if not (pos (size initial) ==ℤ wanted) || not (contains initial leader)
    then none
    else if ltb_ℤ n (pos 1)
        || ltb_ℤ (pos max_size) n
        || elim (all n) [ none ↦ true | some s ↦ not (covers s initial) ]
    then none
    else let qs = new_quorum_set wanted (pos_part n) in
      let ballot = ballot_of leader initial qs in
      if ltb_ℤ ballot (pos 0) then none else some (record { qs = qs; ballots = ballot ∷ [] })
