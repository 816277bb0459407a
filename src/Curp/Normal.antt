-- ===== src/Curp/Normal.antt =====
-- Admission with witness records, acceptance, votes and execution: curp/core.go and curp/execute.go.
use consensus_arena.Prelude.{
  ℕ, zero, suc, ◌+◌, ◌-◌, ◌/◌, Bool, true, false, not, ◌&&◌, ◌||◌, List, [], ◌∷◌, ◌++◌, Option,
  none, some, ltb, ◌==◌, if◌then◌else◌, length,
}
use consensus_arena.Prelude.Int.{int_eq, ℤ, pos, ◌-ℤ◌, ◌==ℤ◌, ltb_ℤ, leb_ℤ, int64}
use consensus_arena.Prelude.Maps.{find, put, delete, has}
use consensus_arena.State.{Command, Value, nil, op_none, op_put, op_get}
use consensus_arena.ReplicaSet.{with, size}
use consensus_arena.Paxos.Defs.{
  RequestId, id_beq, id_eq, Request, Record, Packet, packet, Kind, count_up, next, before,
  page_size, admission_window, ◌>>=◌,
}
use consensus_arena.Paxos.Normal.{votes_at, flag_at, vote_for}
use consensus_arena.Curp.Conflicts.{ConflictIndex, add, remove, conflicts}
use consensus_arena.Curp.Defs.{Core, sent, broadcasted, replied, answered_record, emit}

-- What a round of `flush` does: it leaves the loop, drops a request, proposes one, or panics.
pub data FlushStep (S : Type 0) : Type 0 where
  stop panics : FlushStep S
  skip : Core S → FlushStep S
  propose : Record → Core S → FlushStep S

-- The index without and with a request that may be there.
abbrev pub remove_old : Option Request → ConflictIndex → ConflictIndex
remove_old none x = x
remove_old (some old) x = remove old x

abbrev pub add_old : Option Request → ConflictIndex → ConflictIndex
add_old none x = x
add_old (some old) x = add old x

module _ {S : Type 0} where
  unfoldable pub enqueue : Request → Core S → Core S
  enqueue r c =
      if has r.id c.values || has r.id c.assigned
      then c
      else if flag_at r.id c.queued
      then c
      else record c { queue = c.queue ++ r.id ∷ []; queued = put r.id true c.queued }

  -- Whether the replica has recorded the request under its ballot.
  abbrev pub is_recorded : Request → Core S → Bool
  is_recorded r c = elim (find r.id c.recorded) [ none ↦ false | some b ↦ b ==ℤ c.ballot ]

  -- The record of a request that met no conflict, or that did.
  abbrev pub witnessed : Request → Bool → Core S → Core S
  witnessed r positive c =
      if positive
      then record c {
        witness_index = if has r.id c.witness then c.witness_index else add r c.witness_index;
        witness = put r.id r c.witness;
      }
      else c

  -- The witness record of `submit`. An old record of the request itself is left out of the test.
  unfoldable pub record_witness : Request → Core S → Option (Core S)
  record_witness r c = do
    let old = find r.id c.witness
    let without_old = remove_old old c.witness_index
    conflicting ← conflicts r without_old
    let c1 : Core S = record c {
      witness_index = add_old old without_old;
      recorded = put r.id c.ballot c.recorded;
    }
    let c2 : Core S = witnessed r (not conflicting) c1
    some (if c.id ==ℤ c.leader then c2 else emit (answered_record r (not conflicting)) c2)

  -- The part of `submit` for a request without a result.
  abbrev pub admit : Request → Core S → Option (Core S)
  admit r c = do
    c' ← if is_recorded r c then some c else record_witness r c
    some (if c'.leader ==ℤ c'.id then enqueue r c' else c')

  unfoldable pub submit : Request → Core S → Option (Core S)
  submit r c = elim (find r.id c.values) [
    | some v ↦ some (emit (replied r v false) c)
    | none ↦
        let c' : Core S = record c { pending = put r.id r c.pending } in
        if not c.active then some c' else admit r c'
  ]

  -- The tail of `install`, where the slot is open. The index has the request of an open slot.
  unfoldable pub installed : Record → Core S → Core S
  installed r c =
      let is_open = ltb_ℤ c.executed r.slot in
      let x : ConflictIndex = elim (find r.slot c.log) [
        | none ↦ c.pending_index
        | some old ↦ if is_open then remove old.request c.pending_index else c.pending_index
      ] in
      record c {
        pending_index = if is_open then add r.request x else x;
        log = put r.slot r c.log;
        assigned = put r.request.id r.slot c.assigned;
        high = if ltb_ℤ c.high r.slot then r.slot else c.high;
      }

  unfoldable pub install : Record → Core S → Option (Core S)
  install r c = elim (find r.slot c.log) [
    | some old ↦
        if old.committed
        then (if id_beq old.request.id r.request.id then some c else none)
        else some (installed r c)
    | none ↦ some (installed r c)
  ]

  unfoldable pub request_fetch : ℕ → Core S → Core S
  request_fetch now c =
      if c.id ==ℤ c.leader
      then c
      else if ltb (now - c.last_fetch) 100_000_000
      then record c { fetch_suppressed = count_up c.fetch_suppressed }
      else emit
          (sent c.leader (record (packet Kind.fetch c.id c.ballot) { floor = next c.executed }))
          (record c { last_fetch = now; fetch_requests = count_up c.fetch_requests })

  -- A vote of `from` for a slot. The record comes back if the vote commits it.
  unfoldable pub count_vote : ℤ → Record → Core S → Core S × Option Record
  count_vote from vote c =
      if leb_ℤ vote.slot c.executed
      then (c, none)
      else let voters = with (votes_at vote.slot c.votes) from in
        let c' : Core S = record c { votes = put vote.slot voters c.votes } in
        elim (find vote.slot c.log) [
          | none ↦ (c', none)
          | some r ↦
              if not (r.ballot ==ℤ c.ballot) || r.committed || ltb (size voters) (c.n / 2 + 1)
              then (c', none)
              else let r' = record r { committed = true } in
                (record c' { log = put vote.slot r' c'.log }, some r')
        ]

  unfoldable pub count_votes : ℤ → List Record → Core S → Core S × List Record
  count_votes from [] c = (c, [])
  count_votes from (vote ∷ votes) c =
      let (c', chosen) = count_vote from vote c in
      let (c'', committed) = count_votes from votes c' in
      (c'', elim chosen [ none ↦ committed | some r ↦ r ∷ committed ])

  -- The leader's broadcast of decisions, if there are any.
  unfoldable pub announce : List Record → Core S → Core S
  announce [] c = c
  announce (r ∷ rs) c =
      if c.id ==ℤ c.leader
      then emit (broadcasted (record (packet Kind.commit c.id c.ballot) { records = r ∷ rs })) c
      else c

  -- Whether the slot before a record is missing.
  abbrev pub is_gap : Record → Core S → Bool
  is_gap r c = ltb_ℤ (pos 0) r.slot && not (has (before r.slot) c.log)

  unfoldable pub accept_record : ℤ → Record → Core S → Option (Core S)
  accept_record ballot r c =
      install (record r { ballot = ballot })
        (if is_gap r c then record c { gap_accepts = count_up c.gap_accepts } else c)

  -- The loop of `accept`: the core, whether a record before an accepted one is missing, and the
  -- slots that were accepted.
  unfoldable pub accept_records : ℤ → List Record → Core S → Option (Core S × Bool × List Record)
  accept_records ballot [] c = some (c, false, [])
  accept_records ballot (r ∷ rs) c = do
    c' ← accept_record ballot r c
    rest ← accept_records ballot rs c'
    some (rest.0, is_gap r c || rest.1, vote_for r.slot ∷ rest.2)

-- From here on a command is applied to the store by the callback of `newCore`.
module _ {S : Type 0} (execute : Command → S → S × Value) where
  -- The reply of `flush` to a fast request: a read runs on the store.
  unfoldable pub reply_fast : Request → Core S → Core S
  reply_fast r c =
      let (store', v) = execute r.command c.store in
      if r.command.op == op_put
      then emit (replied r nil true) c
      else if r.command.op == op_get
      then emit (replied r v true) (record c { store = store' })
      else c

  -- Whether a request is fast: it has a witness record here and no open record conflicts. A test
  -- that panics is `none`.
  abbrev pub is_fast : Request → Core S → Option Bool
  is_fast r c =
      if has r.id c.witness
      then elim (conflicts r c.pending_index) [ none ↦ none | some b ↦ some (not b) ]
      else some false

  -- The proposal of a pending request, with the head of the queue gone.
  unfoldable pub propose_request : Request → Core S → FlushStep S
  propose_request r c =
      let slot = next c.high in
      let rec : Record = record {
        slot = slot;
        ballot = c.ballot;
        request = r;
        committed = false;
      } in
      let c' : Core S = record c {
        high = slot;
        log = put slot rec c.log;
        pending_index = add r c.pending_index;
        assigned = put r.id slot c.assigned;
      } in
      elim (is_fast r c) [
        | none ↦ panics
        | some fast ↦ propose rec (if fast then reply_fast r c' else c')
      ]

  -- A round of the loop of `flush`, for the head of the queue and what is behind it.
  unfoldable pub flush_step : RequestId → List RequestId → Core S → FlushStep S
  flush_step id queue c =
      let c' : Core S = record c { queue = queue; queued = delete id c.queued } in
      if leb_ℤ admission_window (int64 (c.high -ℤ c.executed))
      then stop
      else if has id c.assigned || has id c.values
      then skip c'
      else elim (find id c.pending) [ none ↦ skip c' | some r ↦ propose_request r c' ]

  -- The loop over the queue, with room for so many records: those that it proposes.
  unfoldable pub flush_loop : List RequestId → ℕ → Core S → Option (Core S × List Record)
  flush_loop [] room c = some (c, [])
  flush_loop (id ∷ queue) zero c = some (c, [])
  flush_loop (id ∷ queue) (suc room) c = elim (flush_step id queue c) [
    | stop ↦ some (c, [])
    | panics ↦ none
    | skip c' ↦ flush_loop queue (suc room) c'
    | propose rec c' ↦ elim (flush_loop queue room c') [
      | none ↦ none
      | some rest ↦ some (rest.0, rec ∷ rest.1)
    ]
  ]

  -- One round of `apply`, for a committed record: the callback runs unless the request has a
  -- result or is a no-op, and the request leaves the witness records and the indexes.
  unfoldable pub apply_record : Record → Core S → Core S
  apply_record r c =
      let id = r.request.id in
      let (store', v) = execute r.request.command c.store in
      let c' : Core S =
        if not (has id c.values) && not (r.request.command.op == op_none)
        then emit (replied r.request v false)
            (record c { store = store'; values = put id v c.values })
        else c in
      record c' {
        pending = delete id c'.pending;
        witness_index = remove_old (find id c'.witness) c'.witness_index;
        witness = delete id c'.witness;
        pending_index = remove r.request c'.pending_index;
        recorded = delete id c'.recorded;
        votes = delete r.slot c'.votes;
        executed = next c'.executed;
      }

  -- The loop of `apply`: a round consumes the record after `executed`, so it takes no more rounds
  -- than the log has records.
  unfoldable pub apply_loop : ℕ → Core S → Core S
  apply_loop zero c = c
  apply_loop (suc fuel) c = elim (find (next c.executed) c.log) [
    | none ↦ c
    | some r ↦ elim r.committed [ false ↦ c | true ↦ apply_loop fuel (apply_record r c) ]
  ]

  unfoldable pub apply : Core S → Core S
  apply c = apply_loop (suc (length c.log)) c

  unfoldable pub ack : Packet → Core S → Core S
  ack p c =
      if c.preparing
      then c
      else let (c', committed) = count_votes p.from p.records c in apply (announce committed c')

  -- The acknowledgement of `accept`, to all and to the replica itself.
  unfoldable pub vote_back : List Record → Core S → Core S
  vote_back [] c = c
  vote_back (r ∷ rs) c =
      let vote = record (packet Kind.ack c.id c.ballot) { records = r ∷ rs } in
      ack vote (emit (broadcasted vote) c)

  unfoldable pub accept : ℕ → Packet → Core S → Option (Core S)
  accept now p c = do
    rest ← accept_records p.ballot p.records c
    some (vote_back rest.2 (if rest.1 then request_fetch now rest.0 else rest.0))

  -- The tail of `flush`: what was proposed goes out, and to the replica itself.
  unfoldable pub offer : ℕ → List Record → Core S → Option (Core S)
  offer now [] c = some c
  offer now (r ∷ rs) c =
      let p = record (packet Kind.accept c.id c.ballot) { records = r ∷ rs } in
      accept now p (emit (broadcasted p) c)

  unfoldable pub flush : ℕ → Core S → Option (Core S)
  flush now c =
      if leb_ℤ admission_window (int64 (c.high -ℤ c.executed))
      then some c
      else do rest ← flush_loop c.queue page_size c; offer now rest.1 rest.0
