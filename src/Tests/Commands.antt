-- ===== src/Tests/Commands.antt =====
-- Witnesses of the theorems on commands and stores.
use consensus_arena.Prelude.{
  ℕ, zero, suc, ◌≡◌, ◌≢◌, refl, List, [], ◌∷◌, ◌++◌, none, some, if◌then◌else◌, length, arith,
}
use consensus_arena.Prelude.Int.{int_eq, ◌≤ℤ◌, pos, ltb_ℤ, pos_part, uint64, int64, ◌+ℤ◌}
use consensus_arena.State.{Command, op_put, op_scan, conflict, overlaps, scan_end, le_uint64}
use consensus_arena.State.Store.{execute, concat}
use consensus_arena.State.Commute.{conflict-commute, Swapped}
use consensus_arena.State.Wire.{
  marshal, unmarshal, unmarshal-marshal, marshal_value, unmarshal_value, unmarshal-marshal_long,
}
use consensus_arena.State.Policy.{
  CommandPolicy, validate, validate-execute, validate-marshal, is_allowed, limit,
}
use consensus_arena.State.Preload.{preload, preload_loop, preload-get, fill_preloaded_value}
use consensus_arena.Tests.Trees.{sorted_list}

abbrev put_one : Command
put_one = record { op = op_put; k = pos 1; v = 10 ∷ 20 ∷ [] }

-- A scan of the keys 2..4.
abbrev scan_two : Command
scan_two = record { op = op_scan; k = pos 2; v = 3 ∷ 0 ∷ 0 ∷ 0 ∷ 0 ∷ 0 ∷ 0 ∷ 0 ∷ [] }

abbrev stored : sorted_list.Tree
stored = sorted_list.insert (pos 3) (7 ∷ []) sorted_list.empty

abbrev after_put : sorted_list.Tree
after_put = sorted_list.insert (pos 1) (10 ∷ 20 ∷ []) stored

conflict-commute_example : Swapped sorted_list put_one scan_two stored after_put [] (7 ∷ [])
unfolding conflict execute overlaps scan_end le_uint64 uint64 concat int64 ◌+ℤ◌
conflict-commute_example =
    conflict-commute sorted_list put_one scan_two stored after_put after_put [] (7 ∷ []) refl refl
      refl

abbrev default_policy : CommandPolicy
default_policy = record { operations = []; max_value_bytes = pos 0 }

validate-execute_example :
    (execute sorted_list scan_two stored ≢ none) × (conflict scan_two put_one ≢ none)
unfolding validate is_allowed limit
validate-execute_example =
    validate-execute sorted_list default_policy scan_two put_one stored refl refl

validate-marshal_example : unmarshal (marshal put_one [] ++ 99 ∷ []) ≡ some (put_one, 99 ∷ [])
unfolding validate is_allowed limit
validate-marshal_example =
    validate-marshal default_policy put_one (99 ∷ []) refl (omega arith) (omega arith, omega arith)
      refl

unmarshal-marshal_example : unmarshal (marshal scan_two [] ++ 99 ∷ []) ≡ some (scan_two, 99 ∷ [])
unmarshal-marshal_example =
    unmarshal-marshal scan_two (99 ∷ []) (omega arith) (omega arith, omega arith) (omega arith)

abbrev zeros : ℕ → List ℕ
zeros zero = []
zeros (suc n) = 0 ∷ zeros n

length-zeros : (n : ℕ) → length (zeros n) ≡ n
length-zeros zero = refl
length-zeros (suc n) = omega (arith, length-zeros n)

unmarshal-marshal_long_example :
    unmarshal_value (marshal_value (some (zeros 65536)) [] ++ 99 ∷ []) ≢ some (zeros 65536, 99 ∷ [])
unmarshal-marshal_long_example =
    unmarshal-marshal_long (zeros 65536) (99 ∷ []) (omega (arith, length-zeros 65536))

abbrev no_digest : List ℕ → List ℕ
no_digest bytes = []

-- Two records of three bytes.
preload-get_example :
    (sorted_list.size sorted_list.empty ≡ 0)
    × (pos 0 ≤ℤ pos 2)
    × (sorted_list.get (pos 1) (preload_loop sorted_list no_digest 2 0 3 5 sorted_list.empty []).0
        ≡ (if ltb_ℤ (pos 1) (pos 2)
            then some (fill_preloaded_value (pos_part (pos 3)) 1 5)
            else none))
    × (pos (length (fill_preloaded_value (pos_part (pos 3)) 1 5)) ≡ pos 3)
unfolding preload
preload-get_example =
    preload-get sorted_list no_digest (pos 2) (pos 3) 5 sorted_list.empty
      (preload_loop sorted_list no_digest 2 0 3 5 sorted_list.empty []).0 [] 1 refl
