-- ===== src/Paxos/Normal.antt =====
-- Admission, acceptance, votes and execution: paxos/core.go and paxos/execute.go.
use consensus_arena.Prelude.{
  ℕ, zero, suc, ◌+◌, ◌-◌, ◌/◌, Bool, true, false, not, ◌&&◌, ◌||◌, List, [], ◌∷◌, ◌++◌, Option,
  none, some, ltb, ◌==◌, if◌then◌else◌, length,
}
use consensus_arena.Prelude.Int.{int_eq, ℤ, pos, ◌-ℤ◌, ◌==ℤ◌, ltb_ℤ, leb_ℤ, int64}
use consensus_arena.Prelude.Maps.{Map, find, put, delete, has}
use consensus_arena.State.{Command, Value, op_none}
use consensus_arena.ReplicaSet.{Set, with, size}
use consensus_arena.Paxos.Defs.{
  RequestId, id_beq, id_eq, Request, Record, Packet, packet, Kind, Core, sent, broadcasted, replied,
  emit, count_up, next, before, page_size, admission_window, ◌>>=◌,
}

-- A record of a Go map of sets: the zero value of a missing key is the empty set.
abbrev pub votes_at : ℤ → Map ℤ Set → Set
votes_at slot votes = elim (find slot votes) [ none ↦ 0 | some s ↦ s ]

-- A missing key of a map of bools is false.
abbrev pub flag_at : RequestId → Map RequestId Bool → Bool
flag_at id flags = elim (find id flags) [ none ↦ false | some b ↦ b ]

-- Record{Slot: slot}
abbrev pub vote_for : ℤ → Record
vote_for slot = record {
  slot = slot;
  ballot = pos 0;
  request = record {
    id = record { client = pos 0; sequence = pos 0 };
    command = record { op = op_none; k = pos 0; v = [] };
  };
  committed = false;
}

-- What a round of `flush` does: it leaves the loop, drops a request or proposes one.
pub data FlushStep (S : Type 0) : Type 0 where
  stop : FlushStep S
  skip : Core S → FlushStep S
  propose : Record → Core S → FlushStep S

module _ {S : Type 0} where
  unfoldable pub enqueue : Request → Core S → Core S
  enqueue r c =
      if has r.id c.values || has r.id c.assigned
      then c
      else if flag_at r.id c.queued
      then c
      else record c { queue = c.queue ++ r.id ∷ []; queued = put r.id true c.queued }

  -- The core with the request pending, handed to its own queue or to the leader.
  abbrev route : Request → Core S → Core S
  route r c =
      if not c.active
      then c
      else if c.leader ==ℤ c.id
      then enqueue r c
      else emit (sent c.leader (record (packet Kind.forward c.id c.ballot) { requests = r ∷ [] })) c

  unfoldable pub submit : Request → Core S → Core S
  submit r c = elim (find r.id c.values) [
    | some v ↦ emit (replied r v) (record c { replay_replies = count_up c.replay_replies })
    | none ↦ route r (record c { pending = put r.id r c.pending })
  ]

  -- The tail of `install`, where the slot is open.
  unfoldable pub installed : Record → Core S → Core S
  installed r c = record c {
    log = put r.slot r c.log;
    assigned = put r.request.id r.slot c.assigned;
    high = if ltb_ℤ c.high r.slot then r.slot else c.high;
  }

  unfoldable pub install : Record → Core S → Option (Core S)
  install r c = elim (find r.slot c.log) [
    | some old ↦
        if old.committed
        then (if id_beq old.request.id r.request.id then some c else none)
        else some (installed r c)
    | none ↦ some (installed r c)
  ]

  unfoldable pub request_fetch : ℕ → Core S → Core S
  request_fetch now c =
      if c.id ==ℤ c.leader
      then c
      else if ltb (now - c.last_fetch) 100_000_000
      then record c { fetch_suppressed = count_up c.fetch_suppressed }
      else emit
          (sent c.leader (record (packet Kind.fetch c.id c.ballot) { floor = next c.executed }))
          (record c { last_fetch = now; fetch_requests = count_up c.fetch_requests })

  -- A vote of `from` for a slot. The record comes back if the vote commits it.
  unfoldable pub count_vote : ℤ → Record → Core S → Core S × Option Record
  count_vote from vote c =
      if leb_ℤ vote.slot c.executed
      then (c, none)
      else let voters = with (votes_at vote.slot c.votes) from in
        let c' : Core S = record c { votes = put vote.slot voters c.votes } in
        elim (find vote.slot c.log) [
          | none ↦ (c', none)
          | some r ↦
              if not (r.ballot ==ℤ c.ballot) || r.committed || ltb (size voters) (c.n / 2 + 1)
              then (c', none)
              else let r' = record r { committed = true } in
                (record c' { log = put vote.slot r' c'.log }, some r')
        ]

  unfoldable pub count_votes : ℤ → List Record → Core S → Core S × List Record
  count_votes from [] c = (c, [])
  count_votes from (vote ∷ votes) c =
      let (c', chosen) = count_vote from vote c in
      let (c'', committed) = count_votes from votes c' in
      (c'', elim chosen [ none ↦ committed | some r ↦ r ∷ committed ])

  -- The broadcast of records, if there are any.
  unfoldable pub announce : Kind → List Record → Core S → Core S
  announce kind [] c = c
  announce kind (r ∷ rs) c =
      emit (broadcasted (record (packet kind c.id c.ballot) { records = r ∷ rs })) c

  -- Whether the slot before a record is missing.
  abbrev pub is_gap : Record → Core S → Bool
  is_gap r c = ltb_ℤ (pos 0) r.slot && not (has (before r.slot) c.log)

  unfoldable pub accept_record : ℤ → Record → Core S → Option (Core S)
  accept_record ballot r c =
      install (record r { ballot = ballot })
        (if is_gap r c then record c { gap_accepts = count_up c.gap_accepts } else c)

  -- The loop of `accept`: the core, whether a record before an accepted one is missing, and the
  -- slots that were accepted.
  unfoldable pub accept_records : ℤ → List Record → Core S → Option (Core S × Bool × List Record)
  accept_records ballot [] c = some (c, false, [])
  accept_records ballot (r ∷ rs) c = do
    c' ← accept_record ballot r c
    rest ← accept_records ballot rs c'
    some (rest.0, is_gap r c || rest.1, vote_for r.slot ∷ rest.2)

  -- A round of the loop of `flush`, for the head of the queue and what is behind it.
  unfoldable pub flush_step : RequestId → List RequestId → Core S → FlushStep S
  flush_step id queue c =
      let c' : Core S = record c { queue = queue; queued = delete id c.queued } in
      let slot = next c.high in
      if leb_ℤ admission_window (int64 (c.high -ℤ c.executed))
      then stop
      else if has id c.assigned || has id c.values
      then skip c'
      else elim (find id c.pending) [
        | none ↦ skip c'
        | some r ↦
            let rec : Record = record {
              slot = slot;
              ballot = c.ballot;
              request = r;
              committed = false;
            } in
            propose rec (record c' {
              high = slot;
              log = put slot rec c.log;
              assigned = put id slot c.assigned;
            })
      ]

  -- The loop over the queue, with room for so many records: those that it proposes.
  unfoldable pub flush_loop : List RequestId → ℕ → Core S → Core S × List Record
  flush_loop [] room c = (c, [])
  flush_loop (id ∷ queue) zero c = (c, [])
  flush_loop (id ∷ queue) (suc room) c = elim (flush_step id queue c) [
    | stop ↦ (c, [])
    | skip c' ↦ flush_loop queue (suc room) c'
    | propose rec c' ↦ let rest = flush_loop queue room c' in (rest.0, rec ∷ rest.1)
  ]

-- From here on a command is applied to the store by the callback of `newCore`.
module _ {S : Type 0} (execute : Command → S → S × Value) where
  -- One round of `apply`, for a committed record: the callback runs unless the request has a
  -- result or is a no-op.
  unfoldable pub apply_record : Record → Core S → Core S
  apply_record r c =
      let id = r.request.id in
      let (store', v) = execute r.request.command c.store in
      let c' : Core S =
        if not (has id c.values) && not (r.request.command.op == op_none)
        then emit (replied r.request v) (record c { store = store'; values = put id v c.values })
        else c in
      record c' {
        pending = delete id c'.pending;
        votes = delete r.slot c'.votes;
        executed = next c'.executed;
      }

  -- The loop of `apply`: a round consumes the record after `executed`, so it takes no more rounds
  -- than the log has records.
  unfoldable pub apply_loop : ℕ → Core S → Core S
  apply_loop zero c = c
  apply_loop (suc fuel) c = elim (find (next c.executed) c.log) [
    | none ↦ c
    | some r ↦ elim r.committed [ false ↦ c | true ↦ apply_loop fuel (apply_record r c) ]
  ]

  unfoldable pub apply : Core S → Core S
  apply c = apply_loop (suc (length c.log)) c

  unfoldable pub ack : Packet → Core S → Core S
  ack p c =
      if c.preparing || not (c.id ==ℤ c.leader)
      then c
      else let (c', committed) = count_votes p.from p.records c in
        apply (announce Kind.commit committed c')

  -- `receive` of an acknowledgement, which `accept` calls on itself where the replica leads.
  unfoldable pub receive_ack : Packet → Core S → Core S
  receive_ack p c =
      if (ltb_ℤ p.from (pos 0) || leb_ℤ (pos c.n) p.from) || not (p.ballot ==ℤ c.ballot)
      then c
      else ack p c

  -- The acknowledgement of `accept`: a replica that leads handles its own at once.
  unfoldable pub vote_back : List Record → Core S → Core S
  vote_back [] c = c
  vote_back (r ∷ rs) c =
      let vote = record (packet Kind.ack c.id c.ballot) { records = r ∷ rs } in
      if c.leader ==ℤ c.id then receive_ack vote c else emit (sent c.leader vote) c

  unfoldable pub accept : ℕ → Packet → Core S → Option (Core S)
  accept now p c = do
    rest ← accept_records p.ballot p.records c
    some (vote_back rest.2 (if rest.1 then request_fetch now rest.0 else rest.0))

  -- The tail of `flush`: what was proposed goes out, and to the replica itself.
  unfoldable pub offer : ℕ → List Record → Core S → Option (Core S)
  offer now [] c = some c
  offer now (r ∷ rs) c =
      let p = record (packet Kind.accept c.id c.ballot) { records = r ∷ rs } in
      accept now p (emit (broadcasted p) c)

  unfoldable pub flush : ℕ → Core S → Option (Core S)
  flush now c =
      if leb_ℤ admission_window (int64 (c.high -ℤ c.executed))
      then some c
      else let (c', records) = flush_loop c.queue page_size c in offer now records c'
