-- ===== src/Curp/Conflicts.antt =====
-- The conflict index of curp/conflicts.go.
use consensus_arena.Prelude.{
  Bool, true, false, ◌&&◌, [], ◌∷◌, Option, none, some, if◌then◌else◌, ◌==◌,
}
use consensus_arena.Prelude.Int.{int_eq, ℤ, pos, ◌+ℤ◌, ◌-ℤ◌, ◌==ℤ◌, ltb_ℤ, leb_ℤ, int64}
use consensus_arena.Prelude.Maps.{Map, find, put, delete}
use consensus_arena.State.{
  Command, Key, op_none, op_put, op_get, op_scan, conflict, le_uint64, scan_end,
}
use consensus_arena.Paxos.Defs.{RequestId, id_eq, Request}

-- `conflictIndex`: counts of Go ints by key, and the scans by request.
pub record ConflictIndex : Type 0 where
  pub all : Map Key ℤ
  pub writes : Map Key ℤ
  pub scans : Map RequestId Request

abbrev pub new_conflict_index : ConflictIndex
new_conflict_index = record { all = []; writes = []; scans = [] }

-- A missing key counts zero.
abbrev pub count_at : Key → Map Key ℤ → ℤ
count_at k m = elim (find k m) [ none ↦ pos 0 | some n ↦ n ]

-- m[k]++
unfoldable pub increase : Key → Map Key ℤ → Map Key ℤ
increase k m = put k (int64 (count_at k m +ℤ pos 1)) m

-- m[k]--, and a key that counts zero goes.
unfoldable pub decrease : Key → Map Key ℤ → Map Key ℤ
decrease k m =
    let n = int64 (count_at k m -ℤ pos 1) in if n ==ℤ pos 0 then delete k m else put k n m

unfoldable pub add : Request → ConflictIndex → ConflictIndex
add r x =
    if r.command.op == op_none
    then x
    else if r.command.op == op_scan
    then record x { scans = put r.id r x.scans }
    else record x {
      all = increase r.command.k x.all;
      writes = if r.command.op == op_put then increase r.command.k x.writes else x.writes;
    }

unfoldable pub remove : Request → ConflictIndex → ConflictIndex
remove r x =
    if r.command.op == op_none
    then x
    else if r.command.op == op_scan
    then record x { scans = delete r.id x.scans }
    else record x {
      all = decrease r.command.k x.all;
      writes = if r.command.op == op_put then decrease r.command.k x.writes else x.writes;
    }

-- The loop over the scans. `none` is a panic of `Conflict`.
unfoldable pub any_scan : Command → Map RequestId Request → Option Bool
any_scan command [] = some false
any_scan command ((id, s) ∷ scans) =
    let rest = any_scan command scans in
    elim (conflict s.command command) [ none ↦ none | some true ↦ some true | some false ↦ rest ]

-- The loop over the written keys.
unfoldable pub any_write : Key → Key → Map Key ℤ → Bool
any_write lo hi [] = false
any_write lo hi ((k, n) ∷ writes) =
    let rest = any_write lo hi writes in if leb_ℤ lo k && leb_ℤ k hi then true else rest

-- The panic of a SCAN without its count is `none`.
unfoldable pub conflicts : Request → ConflictIndex → Option Bool
conflicts r x =
    let command = r.command in
    if command.op == op_none
    then some false
    else if command.op == op_get
    then some (ltb_ℤ (pos 0) (count_at command.k x.writes))
    else if command.op == op_put
    then (if ltb_ℤ (pos 0) (count_at command.k x.all) then some true else any_scan command x.scans)
    else if command.op == op_scan
    then elim (le_uint64 command.v) [
      | none ↦ none
      | some count ↦ some (any_write command.k (scan_end command.k count) x.writes)
    ]
    else some false
