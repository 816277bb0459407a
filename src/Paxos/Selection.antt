-- ===== src/Paxos/Selection.antt =====
-- What a new leader takes over from a majority of promises: paxos/recovery.go, `promiseReply`.
use mathlib.Core.List.{Memᴰ}
use consensus_arena.Prelude.{
  ◌≡◌, ap, sym, subst, ◌∙◌, ◌⊎◌, inl, inr, List, [], ◌∷◌, Option, none, some, if◌then◌else◌, arith,
}
use consensus_arena.Prelude.Int.{int_eq, ℤ, ◌≤ℤ◌, ltb_ℤ, ◌==ℤ◌, ==ℤ_iff}
use consensus_arena.Prelude.Maps.{Map, find, put, find-put}
use consensus_arena.Paxos.Defs.{Record}
use consensus_arena.Paxos.Recovery.{select_records}

-- One round of the merge.
abbrev merge : Record → Map ℤ Record → Map ℤ Record
merge r selected = elim (find r.slot selected) [
  | none ↦ put r.slot r selected
  | some old ↦ if ltb_ℤ old.ballot r.ballot then put r.slot r selected else selected
]

-- A round leaves for each slot what was there, or the new record where its ballot is higher.
find-merge :
    (r : Record) (selected : Map ℤ Record) (slot : ℤ)
    → find slot (merge r selected) ≡ (
        if r.slot ==ℤ slot
        then elim (find slot selected) [
          | none ↦ some r
          | some old ↦ if ltb_ℤ old.ballot r.ballot then some r else some old
        ]
        else find slot selected)
find-merge r selected slot = ground (arith, find-put r.slot slot r selected, ==ℤ_iff r.slot slot)

-- The record for a slot has a ballot at least as high as another's.
abbrev pub AtLeast : ℤ → Option Record → Type 0
AtLeast b none = ⊥
AtLeast b (some r) = b ≤ℤ r.ballot

merge-AtLeast :
    (b : ℤ) (r : Record) (selected : Map ℤ Record) (slot : ℤ)
    → AtLeast b (find slot selected)
    → AtLeast b (find slot (merge r selected))
merge-AtLeast b r selected slot h = ground (arith, find-merge r selected slot)

merge_self :
    (r : Record) (selected : Map ℤ Record) → AtLeast r.ballot (find r.slot (merge r selected))
merge_self r selected = ground (arith, find-merge r selected r.slot, ==ℤ_iff r.slot r.slot)

select-AtLeast :
    (rs : List Record) (b : ℤ) (selected : Map ℤ Record) (slot : ℤ)
    → AtLeast b (find slot selected)
    → AtLeast b (find slot (select_records rs selected))
unfolding select_records
select-AtLeast [] b selected slot h = h
select-AtLeast (r ∷ rs) b selected slot h =
    select-AtLeast rs b (merge r selected) slot (merge-AtLeast b r selected slot h)

-- For the slot of a reported record the merge has a record, of a ballot at least as high.
pub select_highest :
    (rs : List Record) (selected : Map ℤ Record) (x : Record)
    → Memᴰ x rs
    → AtLeast x.ballot (find x.slot (select_records rs selected))
unfolding select_records
select_highest [] selected x m = elim m [ ]
select_highest (r ∷ rs) selected x (Memᴰ.head e) =
    select-AtLeast rs x.ballot (merge r selected) x.slot (
      subst (λ y. AtLeast y.ballot (find y.slot (merge r selected))) (sym e)
        (merge_self r selected))
select_highest (r ∷ rs) selected x (Memᴰ.tail m) = select_highest rs (merge r selected) x m

-- What the merge has for a slot was there before or was reported for that slot.
abbrev pub Reported : List Record → Map ℤ Record → ℤ → Record → Type 0
Reported rs selected slot r = (find slot selected ≡ some r) ⊎ (Memᴰ r rs × (r.slot ≡ slot))

merge_source :
    (r : Record) (selected : Map ℤ Record) (slot : ℤ) (x : Record)
    → find slot (merge r selected) ≡ some x
    → (find slot selected ≡ some x) ⊎ ((x ≡ r) × (r.slot ≡ slot))
merge_source r selected slot x h = ground (arith, find-merge r selected slot, ==ℤ_iff r.slot slot)

-- What the merge of reported records has for a slot, it had before or it was reported for that
-- slot.
pub select-Reported :
    (rs : List Record) (selected : Map ℤ Record) (slot : ℤ) (x : Record)
    → find slot (select_records rs selected) ≡ some x
    → Reported rs selected slot x
unfolding select_records
select-Reported [] selected slot x h = inl h
select-Reported (r ∷ rs) selected slot x h = elim (select-Reported rs (merge r selected) slot x h) [
  | inr (m, e) ↦ inr (Memᴰ.tail m, e)
  | inl before ↦ elim (merge_source r selected slot x before) [
    | inl old ↦ inl old
    | inr (e, s) ↦ inr (Memᴰ.head e, ap (λ (y : Record). y.slot) e ∙ s)
  ]
]
