-- ===== src/Tests/Sets.antt =====
-- Witnesses of the theorems on replica sets.
use consensus_arena.Prelude.{
  ℕ, ◌≡◌, ◌+◌, ◌≤◌, ◌<◌, ◌↔◌, ◌&&◌, ◌||◌, not, refl, true, Bool, List, [], ◌∷◌, ◌++◌, ltb, arith,
}
use consensus_arena.Prelude.Int.{ℤ, pos, ◌==ℤ◌}
use consensus_arena.Prelude.Bits.{ones}
use consensus_arena.ReplicaSet.{
  new, new_loop, Set, with, add, remove, contains, size, intersection, union, covers, all, range,
  range_loop, trailing_zeros, is_outside,
}
use consensus_arena.ReplicaSet.Members.{
  contains-new, names_id, contains-with, add-is_new, contains-remove, covers_iff,
}
use consensus_arena.ReplicaSet.Quorums.{quorums_meet, intersection_lem, contains-all}
use consensus_arena.ReplicaSet.Iteration.{range_lem, visit_all, members}

-- {0, 1, 2} and {2, 3, 4} of five replicas.
abbrev left : Set
left = 7

abbrev right : Set
right = 28

quorums_meet_example :
    (id : ℕ) × (id < 5) × (contains left (pos id) ≡ true) × (contains right (pos id) ≡ true)
unfolding size ones
quorums_meet_example =
    quorums_meet 5 left right (omega arith) (omega arith) (omega arith) (omega arith)

intersection_lem_example :
    ((id : ℤ) → contains (intersection left right) id ≡ (contains left id && contains right id))
    × ((id : ℤ) → contains (union left right) id ≡ (contains left id || contains right id))
    × (size (intersection left right) + size (union left right) ≡ size left + size right)
    × (size left + size right ≤ size (intersection left right) + 5)
    × (size (union left right) ≤ 5)
intersection_lem_example = intersection_lem 5 left right (omega arith) (omega arith)

contains-all_example : (size 31 ≡ 5) × ((i : ℕ) → contains 31 (pos i) ≡ ltb i 5)
unfolding all
contains-all_example = contains-all 5 31 refl

contains-with_example :
    contains (with left (pos 4)) (pos 4)
    ≡ (contains left (pos 4) || (not (is_outside (pos 4)) && pos 4 ==ℤ pos 4))
contains-with_example = contains-with left (pos 4) (pos 4)

contains-remove_example :
    contains (remove left (pos 1)) (pos 1) ≡ (contains left (pos 1) && not (pos 1 ==ℤ pos 1))
contains-remove_example = contains-remove left (pos 1) (pos 1)

add-is_new_example :
    (add left (pos 4)).1 ≡ (not (is_outside (pos 4)) && not (contains left (pos 4)))
add-is_new_example = add-is_new left (pos 4) (omega arith)

covers_iff_example :
    (covers 31 left ≡ true) ↔ ((id : ℤ) → contains left id ≡ true → contains 31 id ≡ true)
covers_iff_example = covers_iff 31 left (omega arith) (omega arith)

-- The visitor collects the members and stops at replica 2.
abbrev collect : ℤ → List ℤ → List ℤ × Bool
collect id ids = (ids ++ id ∷ [], not (id ==ℤ pos 2))

range_lem_example : range 29 collect [] ≡ visit_all collect (members 29) []
range_lem_example = range_lem 29 collect [] (omega arith)

range_stops : range 29 collect [] ≡ pos 0 ∷ pos 2 ∷ []
unfolding range range_loop trailing_zeros
range_stops = refl

contains-new_example : contains left (pos 2) ≡ names_id (pos 2) (pos 2 ∷ pos 0 ∷ pos 1 ∷ [])
unfolding new new_loop add with
contains-new_example = contains-new (pos 2 ∷ pos 0 ∷ pos 1 ∷ []) left (pos 2) refl
