-- ===== src/FastPaxos/Requests.antt =====
-- What a Fast Paxos replica answers to a coordinator and to a peer that is behind: the cases
-- Accept, Heartbeat and Fetch of `receive` in fastpaxos/core.go.
use consensus_arena.Prelude.{
  ℕ, zero, suc, ◌%◌, true, false, not, ◌&&◌, ◌||◌, List, [], ◌∷◌, ◌++◌, Option, none, some,
  if◌then◌else◌, ltb, ◌==◌, length, min,
}
use consensus_arena.Prelude.Int.{int_eq, ℤ, pos, ◌+ℤ◌, ◌==ℤ◌, ltb_ℤ, int64}
use consensus_arena.Prelude.Maps.{Map, find}
use consensus_arena.Paxos.Defs.{id_eq, next, rounds, ◌>>=◌}
use consensus_arena.FastPaxos.Defs.{Entry, same_value}
use consensus_arena.FastPaxos.Core.{
  Core, Slot, Kind, Message, message, no_record, page_length, repair_budget, slot_at, put_slot,
  open_slot, send, owner, remember, cast,
}
use consensus_arena.FastPaxos.Recovery.{adopt}
use consensus_arena.FastPaxos.Ticks.{is_empty}

-- entry{Slot: slot, Epoch: epoch}
abbrev pub ack_of : Entry → Entry
ack_of e = record {
  slot = e.slot;
  epoch = e.epoch;
  round = 0;
  value = no_record;
  payload = false;
  decided = false;
}

module _ {S : Type 0} where
  -- An entry of an Accept: the acceptance.
  unfoldable pub accept_entry : ℕ → Entry → Core S → Option (Core S)
  accept_entry epoch e c = if not (e.epoch == epoch) || not e.payload then some c else do
    c1 ← remember e.value c
    c2 ← open_slot e.slot c1
    if (elim (slot_at e.slot c2).chosen [
      | none ↦ false
      | some x ↦ not (same_value x.value e.value)
    ])
          || (elim (slot_at e.slot c2).accepted [
            | none ↦ false
            | some x ↦ x.epoch == e.epoch && not (same_value x.value e.value)
          ])
        then none
        else some (
            put_slot e.slot
              (record (slot_at e.slot c2) {
                accepted = some (record {
                  slot = e.slot;
                  epoch = e.epoch;
                  round = 0;
                  value = e.value;
                  payload = true;
                  decided = false;
                });
              })
              c2)

  unfoldable pub accept_entries : ℕ → List Entry → Core S → Option (Core S × List Entry)
  accept_entries epoch [] c = some (c, [])
  accept_entries epoch (e ∷ es) c = do
    c' ← accept_entry epoch e c
    rest ← accept_entries epoch es c'
    some (rest.0, if not (e.epoch == epoch) || not e.payload then rest.1 else ack_of e ∷ rest.1)

  unfoldable pub accept : Message → Core S → Option (Core S)
  accept m c =
      if m.epoch == 0 || not (pos (m.epoch % c.n) ==ℤ m.from)
      then some c
      else if ltb m.epoch c.promise
      then some (send m.from (record (message Kind.nack) { epoch = c.promise }) c)
      else do
        rest ← accept_entries m.epoch m.entries (record (adopt m.epoch c) { active = true })
        some (
            send m.from (record (message Kind.accepted) { epoch = m.epoch; entries = rest.1 })
              rest.0)

  unfoldable pub heartbeat : Message → Core S → Core S
  heartbeat m c =
      let c' : Core S = if ltb c.promise m.epoch then adopt m.epoch c else c in
      if ltb 0 c'.promise && m.from ==ℤ owner c' && ltb_ℤ c'.executed m.high
      then send m.from (record (message Kind.fetch) { start = next c'.executed; high = m.high }) c'
      else c'

  -- The payloads that are asked for and known.
  unfoldable pub known_payloads : List Entry → Core S → List Entry
  known_payloads [] c = []
  known_payloads (e ∷ es) c =
      let rest = known_payloads es c in
      elim (find e.value.id c.known) [
        | none ↦ rest
        | some v ↦
            record {
              slot = pos 0;
              epoch = 0;
              round = 0;
              value = v;
              payload = true;
              decided = false;
            }
            ∷ rest
      ]

  -- The decision of a slot with its payload, if both are here.
  unfoldable pub decision_of : ℤ → Core S → Option Entry
  decision_of s c = elim (slot_at s c).chosen [
    | none ↦ none
    | some e ↦
        if e.value.noop
        then some (record e { payload = true })
        else elim (find e.value.id c.known) [
          | none ↦ none
          | some v ↦ some (record e { value = v; payload = true })
        ]
  ]

  -- The decisions of k slots from `s` on, in pages; `page` is the one that is not full.
  unfoldable pub send_decisions : ℕ → ℤ → ℤ → List Entry → Core S → Core S
  send_decisions zero s to page c =
      if is_empty page then c else send to (record (message Kind.commit) { entries = page }) c
  send_decisions (suc k) s to page c = elim (decision_of s c) [
    | none ↦ send_decisions k (next s) to page c
    | some e ↦
        let page' = page ++ e ∷ [] in
        if length page' == page_length
        then send_decisions k (next s) to []
            (send to (record (message Kind.commit) { entries = page' }) c)
        else send_decisions k (next s) to page' c
  ]

  unfoldable pub fetch : Message → Core S → Core S
  fetch m c =
      let found = known_payloads m.entries c in
      let c' : Core S =
        if is_empty found
        then c
        else send m.from (record (message Kind.data_entries) { entries = found }) c in
      if not (is_empty m.entries)
      then c'
      else let wrapped = ltb_ℤ (int64 (m.start +ℤ pos repair_budget)) m.start in
        send_decisions (if wrapped then 0 else min repair_budget (rounds m.start m.high)) m.start
          m.from [] c'

  -- The votes that waited for a payload, over the slots of a list.
  unfoldable pub cast_deferred : Map ℤ Slot → Core S → Option (Core S)
  cast_deferred [] c = some c
  cast_deferred ((s, st) ∷ slots) c = do
    c' ← elim (slot_at s c).deferred [ none ↦ some c | some e ↦ cast e c ]
    cast_deferred slots c'

  abbrev pub supersede : Message → Core S → Core S
  supersede m c = if ltb c.promise m.epoch then adopt m.epoch c else c
