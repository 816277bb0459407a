-- ===== src/State/Store.antt =====
-- `Execute` of state/state.go. `State` is its tree: the mutex is held from the first line of a
-- method to its return, so a command is one step.
use consensus_arena.Prelude.{
  ℕ, Bool, ◌&&◌, List, [], ◌∷◌, ◌++◌, Option, none, some, ◌==◌, if◌then◌else◌,
}
use consensus_arena.Prelude.Int.{leb_ℤ}
use consensus_arena.Prelude.Maps.{Map}
use consensus_arena.State.{
  Key, Value, Command, nil, op_put, op_get, op_scan, key_comparator, le_uint64, scan_end,
}
use consensus_arena.State.Tree.{TreeMap}

-- concat
unfoldable pub concat : List Value → Value
concat [] = []
concat (s ∷ slices) = s ++ concat slices

abbrev pub in_range : Key → Key → Key → Value → Bool
in_range lb ub key value = leb_ℤ lb key && leb_ℤ key ub

abbrev pub values_of : Map Key Value → List Value
values_of [] = []
values_of (e ∷ m) = e.1 ∷ values_of m

module _ (trees : TreeMap key_comparator) where
  open trees use {Tree, empty, insert, get, size, select, entries}

  abbrev pub init_state : Tree
  init_state = empty

  abbrev pub get_result : Option Value → Value
  get_result none = nil
  get_result (some value) = value

  abbrev pub scan_result : Key → ℕ → Tree → Value
  scan_result k count st = concat (values_of (entries (select (in_range k (scan_end k count)) st)))

  -- `none` is the panic of a SCAN without its count.
  unfoldable pub execute : Command → Tree → Option (Tree × Value)
  execute c st =
      if c.op == op_put
      then some (insert c.k c.v st, nil)
      else if c.op == op_get
      then some (st, get_result (get c.k st))
      else if c.op == op_scan
      then elim (le_uint64 c.v) [ none ↦ none | some count ↦ some (st, scan_result c.k count st) ]
      else some (st, nil)

  -- A batch in order, as the replicas run it, with the result of each command.
  unfoldable pub execute_all : List Command → Tree → Option (Tree × List Value)
  execute_all [] st = some (st, [])
  execute_all (c ∷ cs) st = elim (execute c st) [
    | none ↦ none
    | some (st', r) ↦ elim (execute_all cs st') [
      | none ↦ none
      | some (st'', rs) ↦ some (st'', r ∷ rs)
    ]
  ]
