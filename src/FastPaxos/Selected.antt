-- ===== src/FastPaxos/Selected.antt =====
-- What `selectValue` of fastpaxos/recovery.go returns where a value was chosen by a fast quorum.
use Prim.Native.Nat.{bit_or}
use consensus_arena.Prelude.{
  ℕ, ◌%◌, ◌^◌, ◌≡◌, refl, ap, ◌∙◌, false, [], ◌∷◌, none, some, if◌then◌else◌, arith, All,
}
use consensus_arena.Prelude.Int.{word_mod}
use consensus_arena.Prelude.Maps.{Map, find, put, find-put}
use consensus_arena.ReplicaSet.{Set}
use consensus_arena.Paxos.Defs.{RequestId, id_beq, id_beq_iff, id_eq}
use consensus_arena.FastPaxos.Defs.{Record, Entry, newer}
use consensus_arena.FastPaxos.Choice.{
  newer_of, scan_reports, add_support, collect, newest, candidates,
}

-- A vote of the fast round.
abbrev pub IsFast : ℕ × Entry → Type 0
IsFast (i, e) = (e.decided ≡ false) × (e.epoch ≡ 0) × (e.round ≡ 1) × (e.value.noop ≡ false)

pub scan-fast :
    (reports : Map ℕ Entry) (t : Entry)
    → t.epoch ≡ 0
    → t.round ≡ 1
    → All IsFast reports
    → scan_reports reports (some t) ≡ newest (some t)
unfolding scan_reports newer_of newer
scan-fast [] t p q h = refl
scan-fast ((i, e) ∷ reports) t p q h = ground (arith, h, scan-fast reports t p q h.1)

-- What the second loop makes of votes of the fast round.
abbrev pub values_from : Map ℕ Entry → Map RequestId Record → Map RequestId Record
values_from [] values = values
values_from ((i, e) ∷ reports) values = values_from reports (put e.value.id e.value values)

abbrev pub supports_from : Map ℕ Entry → Map RequestId Set → Map RequestId Set
supports_from [] supports = supports
supports_from ((i, e) ∷ reports) supports =
    supports_from reports (add_support e.value.id i supports)

pub collect-fast :
    (reports : Map ℕ Entry) (t : Entry) (values : Map RequestId Record)
    (supports : Map RequestId Set)
    → t.epoch ≡ 0
    → t.round ≡ 1
    → All IsFast reports
    → collect t reports values supports
      ≡ candidates (values_from reports values) (supports_from reports supports)
unfolding collect
collect-fast [] t values supports p q h = refl
collect-fast ((i, e) ∷ reports) t values supports p q h = ground (
  arith,
  h,
  collect-fast reports t (put e.value.id e.value values) (add_support e.value.id i supports) p q
      h.1,
)

-- The replicas that report a request.
abbrev pub reporters : RequestId → Map ℕ Entry → Set → Set
reporters id [] acc = acc
reporters id ((i, e) ∷ reports) acc =
    reporters id reports (if id_beq e.value.id id then bit_or acc (2 ^ i % word_mod) else acc)

abbrev pub support_of : RequestId → Map RequestId Set → Set
support_of id supports = elim (find id supports) [ none ↦ 0 | some s ↦ s ]

support_of-add_support :
    (j id : RequestId) (i : ℕ) (supports : Map RequestId Set)
    → support_of id (add_support j i supports) ≡ (
        if id_beq j id
        then bit_or (support_of id supports) (2 ^ i % word_mod)
        else support_of id supports)
unfolding add_support
support_of-add_support j id i supports = ground (
  arith,
  find-put j id (bit_or (support_of j supports) (2 ^ i % word_mod)) supports,
  id_beq_iff j id,
)

pub support_of-supports_from :
    (id : RequestId) (reports : Map ℕ Entry) (supports : Map RequestId Set)
    → support_of id (supports_from reports supports) ≡ reporters id reports (support_of id supports)
support_of-supports_from id [] supports = refl
support_of-supports_from id ((i, e) ∷ reports) supports =
    support_of-supports_from id reports (add_support e.value.id i supports)
    ∙ ap (reporters id reports) (support_of-add_support e.value.id id i supports)
