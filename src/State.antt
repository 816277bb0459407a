-- ===== src/State.antt =====
-- state/state.go and state/validation.go: the commands of the replicated key-value store.
pub mod Tree
pub mod Store
pub mod Commute
pub mod Wire
pub mod Policy
pub mod Preload
use consensus_arena.Prelude.{
  ℕ, ◌+◌, ◌*◌, Bool, true, false, ◌&&◌, ◌||◌, List, [], ◌∷◌, Option, none, some, ◌==◌,
  if◌then◌else◌,
}
use consensus_arena.Prelude.Int.{ℤ, pos, negsuc, ◌+ℤ◌, leb_ℤ, ltb_ℤ, int64, int64_of_word}

-- A uint8.
abbrev pub Operation : Type 0
Operation = ℕ

abbrev pub op_none : Operation
op_none = 0

abbrev pub op_put : Operation
op_put = 1

abbrev pub op_get : Operation
op_get = 2

abbrev pub op_scan : Operation
op_scan = 3

-- The bytes of a `Value`.
abbrev pub Value : Type 0
Value = List ℕ

-- An int64.
abbrev pub Key : Type 0
Key = ℤ

pub record Command : Type 0 where
  pub op : Operation
  pub k : Key
  pub v : Value

-- NIL()
abbrev pub nil : Value
nil = []

abbrev pub noop : List Command
noop = record { op = op_none; k = pos 0; v = nil } ∷ []

unfoldable pub key_comparator : Key → Key → ℤ
key_comparator a b = if ltb_ℤ b a then pos 1 else if ltb_ℤ a b then negsuc 0 else pos 0

-- binary.LittleEndian.Uint64: it panics on fewer than eight bytes.
unfoldable pub le_uint64 : List ℕ → Option ℕ
le_uint64 (a ∷ b ∷ c ∷ d ∷ e ∷ f ∷ g ∷ h ∷ rest) =
    some (a + 256 * (b + 256 * (c + 256 * (d + 256 * (e + 256 * (f + 256 * (g + 256 * h)))))))
le_uint64 _ = none

-- c.K + Key(count): the last key of a scan, with the wrap-around of int64.
unfoldable pub scan_end : Key → ℕ → Key
scan_end k count = int64 (k +ℤ int64_of_word count)

-- The tail of `Conflict`: the key lies in lb..ub, and one command is a PUT.
abbrev pub overlaps : Command → Command → Key → Key → Key → Bool
overlaps gamma delta key lb ub =
    (leb_ℤ lb key && leb_ℤ key ub) && (gamma.op == op_put || delta.op == op_put)

-- `none` is the panic of a SCAN without its count.
unfoldable pub conflict : Command → Command → Option Bool
conflict gamma delta =
    if gamma.op == op_scan && delta.op == op_scan
    then some false
    else if gamma.op == op_scan
    then elim (le_uint64 gamma.v) [
      | none ↦ none
      | some count ↦ some (overlaps gamma delta delta.k gamma.k (scan_end gamma.k count))
    ]
    else if delta.op == op_scan
    then elim (le_uint64 delta.v) [
      | none ↦ none
      | some count ↦ some (overlaps gamma delta gamma.k delta.k (scan_end delta.k count))
    ]
    else some (overlaps gamma delta gamma.k delta.k delta.k)

-- The inner loop of `ConflictBatch`.
unfoldable pub conflict_any : Command → List Command → Option Bool
conflict_any gamma [] = some false
conflict_any gamma (delta ∷ deltas) =
    let rest = conflict_any gamma deltas in
    elim (conflict gamma delta) [ none ↦ none | some true ↦ some true | some false ↦ rest ]

unfoldable pub conflict_batch : List Command → List Command → Option Bool
conflict_batch [] batch2 = some false
conflict_batch (gamma ∷ batch1) batch2 =
    let rest = conflict_batch batch1 batch2 in
    elim (conflict_any gamma batch2) [ none ↦ none | some true ↦ some true | some false ↦ rest ]

unfoldable pub is_read : Command → Bool
is_read command = command.op == op_get
