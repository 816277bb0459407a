-- ===== src/FastPaxos/Choice.antt =====
-- `selectValue` of fastpaxos/recovery.go: what a coordinator proposes for a slot from the reports of
-- a majority. A replica is its number, and `none` is the panic.
use Prim.Native.Nat.{bit_or}
use consensus_arena.Prelude.{
  ℕ, ◌+◌, ◌^◌, ◌%◌, Bool, true, false, ◌&&◌, [], ◌∷◌, Option, none, some, ltb, ◌==◌, if◌then◌else◌,
  length,
}
use consensus_arena.Prelude.Int.{ℤ, pos, ◌-ℤ◌, leb_ℤ, word_mod}
use consensus_arena.Prelude.Maps.{Map, find, put}
use consensus_arena.State.{op_none}
use consensus_arena.ReplicaSet.{Set, size}
use consensus_arena.Paxos.Defs.{RequestId, id_eq}
use consensus_arena.FastPaxos.Defs.{Record, Entry, newer}

-- The first loop: a decided entry ends it, or else it has the newest entry.
pub data Scan : Type 0 where
  decided : Record → Scan
  newest : Option Entry → Scan

unfoldable pub newer_of : Entry → Option Entry → Option Entry
newer_of e none = some e
newer_of e (some top) = if newer e top then some e else some top

unfoldable pub scan_reports : Map ℕ Entry → Option Entry → Scan
scan_reports [] top = newest top
scan_reports ((id, e) ∷ reports) top =
    let rest = scan_reports reports (newer_of e top) in if e.decided then decided e.value else rest

-- The second loop, over the entries of the newest epoch and round: a no-op ends it, or else it has
-- the value of each request and the replicas that report it.
pub data Collected : Type 0 where
  no_op : Record → Collected
  candidates : Map RequestId Record → Map RequestId Set → Collected

abbrev pub same_round : Entry → Entry → Bool
same_round e top = e.epoch == top.epoch && e.round == top.round

-- supports[id] |= 1 << replica
unfoldable pub add_support : RequestId → ℕ → Map RequestId Set → Map RequestId Set
add_support id replica supports =
    let old : Set = elim (find id supports) [ none ↦ 0 | some s ↦ s ] in
    put id (bit_or old (2 ^ replica % word_mod)) supports

unfoldable pub collect : Entry → Map ℕ Entry → Map RequestId Record → Map RequestId Set → Collected
collect top [] values supports = candidates values supports
collect top ((replica, e) ∷ reports) values supports =
    let rest = collect top reports values supports in
    let more =
      collect top reports (put e.value.id e.value values)
        (add_support e.value.id replica supports) in
    if same_round e top then if e.value.noop then no_op e.value else more else rest

-- The last loop: the first value with enough replicas behind it.
unfoldable pub first_supported : ℤ → Map RequestId Record → Map RequestId Set → Option Record
first_supported minimum [] supports = none
first_supported minimum ((id, v) ∷ values) supports =
    let rest = first_supported minimum values supports in
    let s : Set = elim (find id supports) [ none ↦ 0 | some s ↦ s ] in
    if leb_ℤ minimum (pos (size s)) then some v else rest

-- record{Noop: true}
abbrev pub no_op_record : Record
no_op_record = record {
  id = record { client = pos 0; sequence = pos 0 };
  command = record { op = op_none; k = pos 0; v = [] };
  noop = true;
}

-- fastSize + bits.OnesCount64(voters) - n
abbrev pub minimum_support : Set → ℕ → ℕ → ℤ
minimum_support voters fast_size n = pos (fast_size + size voters) -ℤ pos n

-- The tail behind the two loops.
unfoldable pub choose :
    Entry → Map RequestId Record → Map RequestId Set → ℤ → Option (Record × Bool)
choose top values supports minimum =
    if length values == 1
    then some (top.value, true)
    else if ltb 0 top.epoch
    then none
    else elim (first_supported minimum values supports) [
      | none ↦ some (no_op_record, false)
      | some v ↦ some (v, true)
    ]

unfoldable pub select_value : Map ℕ Entry → Set → ℕ → ℕ → Option (Record × Bool)
select_value reports voters fast_size n = elim (scan_reports reports none) [
  | decided v ↦ some (v, true)
  | newest top ↦ elim top [
    | none ↦ some (no_op_record, false)
    | some t ↦ elim (collect t reports [] []) [
      | no_op v ↦ some (v, true)
      | candidates values supports ↦ choose t values supports (minimum_support voters fast_size n)
    ]
  ]
]
