-- ===== src/FastPaxos/Normal.antt =====
-- Execution, decisions, submission and proposals: fastpaxos/execute.go and fastpaxos/core.go.
use consensus_arena.Prelude.{
  ℕ, zero, suc, ◌+◌, Bool, true, false, not, ◌&&◌, ◌||◌, List, [], ◌∷◌, ◌++◌, Option, none, some,
  get_or, if◌then◌else◌, ◌==◌, length,
}
use consensus_arena.Prelude.Int.{int_eq, ◌-ℤ◌, ◌==ℤ◌, ltb_ℤ, int64}
use consensus_arena.Prelude.Maps.{find, put, has}
use consensus_arena.State.{Command, Value}
use consensus_arena.Paxos.Defs.{RequestId, id_eq, next, ◌>>=◌}
use consensus_arena.FastPaxos.Defs.{Record, Entry, same_value}
use consensus_arena.FastPaxos.Core.{
  Core, Kind, message, no_record, page_length, inflight_window, failure_timeout, slot_at, put_slot,
  open_slot, broadcast, owner, remember, is_pending, forget_pending, enqueue, propose_fast,
}

-- A round of `flush`: it leaves the loop, drops a request that has a result, or proposes one.
pub data Round (S : Type 0) : Type 0 where
  stop panics : Round S
  skip : Core S → Round S
  propose : Entry → Core S → Round S

module _ {S : Type 0} where
  -- One round of `flush`, for the head of the queue and what is behind it.
  unfoldable pub flush_round : RequestId → List RequestId → Core S → Round S
  flush_round id queue c =
      let c' : Core S = record c { queue = queue } in
      let e : Entry = record {
        slot = c.next_slot;
        epoch = c.promise;
        round = 0;
        value = get_or (find id c.known) no_record;
        payload = true;
        decided = false;
      } in
      if not (ltb_ℤ (int64 (c.next_slot -ℤ c.executed)) inflight_window)
      then stop
      else if has id c.results
      then skip c'
      else elim (open_slot e.slot (record c' { next_slot = next c.next_slot })) [
        | none ↦ panics
        | some c'' ↦
            propose e
              (put_slot e.slot (record (slot_at e.slot c'') { proposed = some e; acks = 0 }) c'')
      ]

  -- The loop over the queue, with room for so many entries.
  unfoldable pub flush_rounds : List RequestId → ℕ → Core S → Option (Core S × List Entry)
  flush_rounds [] room c = some (c, [])
  flush_rounds (id ∷ queue) zero c = some (c, [])
  flush_rounds (id ∷ queue) (suc room) c = elim (flush_round id queue c) [
    | stop ↦ some (c, [])
    | panics ↦ none
    | skip c' ↦ flush_rounds queue (suc room) c'
    | propose e c' ↦ elim (flush_rounds queue room c') [
      | none ↦ none
      | some rest ↦ some (rest.0, e ∷ rest.1)
    ]
  ]

  -- The broadcast of what was proposed, if anything was.
  unfoldable pub offer : List Entry → Core S → Core S
  offer [] c = c
  offer (e ∷ es) c =
      broadcast (record (message Kind.accept) { epoch = c.promise; entries = e ∷ es }) c

  unfoldable pub flush : Core S → Option (Core S)
  flush c =
      if not c.active || not (owner c ==ℤ c.id)
      then some c
      else do rest ← flush_rounds c.queue page_length c; some (offer rest.1 rest.0)

  -- The end of `learn`: a fast proposal that lost its slot goes to another one.
  unfoldable pub propose_again : Entry → Core S → Option (Core S)
  propose_again e c = if not (c.promise == 0) then some c else elim (slot_at e.slot c).local [
    | none ↦ some c
    | some id ↦
        let v = get_or (find id c.known) no_record in
        if not (same_value (record no_record { id = id }) e.value) && is_pending id c.pending
        then propose_fast v (put_slot e.slot (record (slot_at e.slot c) { local = none }) c)
        else some c
  ]

  -- The decision of `learn`, for a slot that is open.
  unfoldable pub decide : Entry → Core S → Core S
  decide e c =
      let c' : Core S =
        put_slot e.slot (record (slot_at e.slot c) { chosen = some (record e { decided = true }) })
          c in
      if e.value.noop then c' else forget_pending e.value.id c'

  abbrev pub is_conflict : Entry → Core S → Bool
  is_conflict e c = elim (slot_at e.slot c).chosen [
    | none ↦ false
    | some x ↦ not (same_value x.value e.value)
  ]

module _ {S : Type 0} (execute : Command → S → S × Value) where
  -- The part of an execution round for a request whose payload is here.
  unfoldable pub run : Record → Core S → Core S
  run v c =
      let (store', result) = execute v.command c.store in
      if has v.id c.results then c else record c {
        store = store';
        results = put v.id result c.results;
        replies = c.replies ++ (v.id, result) ∷ [];
      }

  -- One round of `apply`: `none` is its return.
  unfoldable pub apply_round : Core S → Option (Core S)
  apply_round c = do
    st ← find (next c.executed) c.slots
    e ← st.chosen
    c' ←
        (if e.value.noop then some c else elim (find e.value.id c.known) [
          | none ↦ none
          | some full ↦ some (forget_pending e.value.id (run (record full { id = e.value.id }) c))
        ])
    some (record c' { executed = next c'.executed; last_progress = c'.now })

  -- A round consumes the slot after `executed`, so there are no more rounds than slots.
  unfoldable pub apply_rounds : ℕ → Core S → Core S
  apply_rounds zero c = c
  apply_rounds (suc fuel) c = elim (apply_round c) [ none ↦ c | some c' ↦ apply_rounds fuel c' ]

  unfoldable pub apply : Core S → Core S
  apply c = apply_rounds (suc (length c.slots)) c

  unfoldable pub learn : Entry → Core S → Option (Core S)
  learn e c = do
    c1 ← open_slot e.slot c
    c2 ← if is_conflict e c1 then none else some c1
    c3 ← if e.payload then remember e.value c2 else some c2
    propose_again e (apply (decide e c3))

  -- A new request: it waits, and goes to the fast round or to the coordinator's queue.
  unfoldable pub admit : Record → Core S → Option (Core S)
  admit v c =
      let c' : Core S = record c {
        last_progress = if length c.pending == 0 then c.now else c.last_progress;
        pending = c.pending ++ record { id = v.id; retry_at = c.now + failure_timeout } ∷ [];
      } in
      if c.promise == 0
      then propose_fast v c'
      else some (if c.active && owner c ==ℤ c.id then enqueue v.id c' else c')

  unfoldable pub submit : Record → Core S → Option (Core S)
  submit v c = do
    c1 ← remember v c
    let c2 = apply c1
    elim (find v.id c2.results) [
      | some result ↦ some (record c2 { replies = c2.replies ++ (v.id, result) ∷ [] })
      | none ↦ if is_pending v.id c2.pending then some c2 else admit v c2
    ]
