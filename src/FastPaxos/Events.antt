-- ===== src/FastPaxos/Events.antt =====
-- The events of a Fast Paxos replica: `receive` of fastpaxos/core.go, and the adapter of
-- fastpaxos/replica.go.
use consensus_arena.Prelude.{
  ℕ, ◌+◌, ◌/◌, true, not, ◌||◌, List, [], ◌∷◌, Option, none, some, get_or, if◌then◌else◌, ltb, leb,
  ◌==◌, length, is_some,
}
use consensus_arena.Prelude.Int.{int_eq, ℤ, pos, pos_part, ◌-ℤ◌, ◌==ℤ◌, ltb_ℤ, leb_ℤ}
use consensus_arena.Prelude.Maps.{Map, find, put, has}
use consensus_arena.State.{Command, Value}
use consensus_arena.ReplicaSet.{with, size}
use consensus_arena.Paxos.Defs.{id_eq, count_up, ◌>>=◌}
use consensus_arena.FastPaxos.Defs.{Record, Entry, same_value}
use consensus_arena.FastPaxos.Core.{
  Core, Slot, Kind, Message, no_record, slot_at, put_slot, open_slot, owner,
}
use consensus_arena.FastPaxos.Normal.{apply, learn, submit}
use consensus_arena.FastPaxos.Recovery.{prepare, promise_page, announce, remember_all}
use consensus_arena.FastPaxos.Ticks.{set_heard, tick}
use consensus_arena.FastPaxos.Requests.{accept, heartbeat, fetch, cast_deferred, supersede}

-- How many votes are for the value.
unfoldable pub count_support : Record → Map ℤ Entry → ℕ
count_support v [] = 0
count_support v ((from, x) ∷ votes) =
    (if same_value x.value v then 1 else 0) + count_support v votes

-- An event of the replica's loop.
pub data Event : Type 0 where
  proposed : Record → Event
  received : Message → Event
  ticked : ℕ → Event

-- A slot with the vote of a sender.
abbrev pub voted_slot : ℤ → Entry → Slot → Slot
voted_slot from e st =
    let votes = put from e st.votes in
    let support = count_support e.value votes in
    record st {
      votes = votes;
      max_votes = if ltb st.max_votes support then support else st.max_votes;
    }

module _ {S : Type 0} where
  -- The replica stops to vote on the fast path.
  abbrev pub stall : Core S → Core S
  stall c = record c { stalled = true }

module _ {S : Type 0} (execute : Command → S → S × Value) where
  -- What a counted vote leads to: a decision, or the end of the fast path.
  unfoldable pub settle : Entry → Core S → Option (Core S)
  settle e c =
      let st = slot_at e.slot c in
      if leb c.fast_size (count_support e.value st.votes)
      then learn execute e (record c { fast_commits = count_up c.fast_commits })
      else some (
          if ltb_ℤ (pos (st.max_votes + c.n) -ℤ pos (length st.votes)) (pos c.fast_size)
          then stall c
          else c)

  unfoldable pub receive_vote : ℤ → Entry → Core S → Option (Core S)
  receive_vote from e c =
      if not (e.epoch == 0) || not (e.round == 1) || e.value.noop then some c else do
        c' ← open_slot e.slot c
        if is_some (slot_at e.slot c').chosen || has from (slot_at e.slot c').votes
            then some c'
            else settle e (put_slot e.slot (voted_slot from e (slot_at e.slot c')) c')

  unfoldable pub receive_votes : ℤ → List Entry → Core S → Option (Core S)
  receive_votes from [] c = some c
  receive_votes from (e ∷ es) c = do c' ← receive_vote from e c; receive_votes from es c'

  -- An acknowledgement of a planned entry. The decision comes back if it makes a majority.
  unfoldable pub receive_accepted : ℤ → ℕ → Entry → Core S → Option (Core S × Option Entry)
  receive_accepted from epoch e c =
      let st = slot_at e.slot c in
      elim (if is_some st.chosen then none else st.proposed) [
        | none ↦ some (c, none)
        | some plan ↦
            let c' : Core S = put_slot e.slot (record st { acks = with st.acks from }) c in
            if not (plan.epoch == epoch)
            then some (c, none)
            else if ltb (size (with st.acks from)) (c.n / 2 + 1)
            then some (c', none)
            else do
              let value =
                  if plan.value.noop
                  then plan.value
                  else get_or (find plan.value.id c.known) no_record
              let v : Entry = record plan { value = value; payload = true; decided = true }
              c'' ← learn execute v (record c' { classic_commits = count_up c'.classic_commits })
              some (c'', some v)
      ]

  unfoldable pub receive_all_accepted : ℤ → ℕ → List Entry → Core S → Option (Core S × List Entry)
  receive_all_accepted from epoch [] c = some (c, [])
  receive_all_accepted from epoch (e ∷ es) c = do
    first ← receive_accepted from epoch e c
    rest ← receive_all_accepted from epoch es first.0
    some (rest.0, elim first.1 [ none ↦ rest.1 | some v ↦ v ∷ rest.1 ])

  unfoldable pub accepted : Message → Core S → Option (Core S)
  accepted m c =
      if not c.active || not (owner c ==ℤ c.id) || not (m.epoch == c.promise) then some c else do
        rest ← receive_all_accepted m.from m.epoch m.entries c
        some (announce Kind.commit 0 rest.1 rest.0)

  unfoldable pub learn_all : List Entry → Core S → Option (Core S)
  learn_all [] c = some c
  learn_all (e ∷ es) c = do c' ← learn execute e c; learn_all es c'

  unfoldable pub receive_data : List Entry → Core S → Option (Core S)
  receive_data es c = do
    c1 ← remember_all es c
    c2 ← cast_deferred c1.slots c1
    some (apply execute c2)

  unfoldable pub submit_all : List Entry → Core S → Option (Core S)
  submit_all [] c = some c
  submit_all (e ∷ es) c = do
    c' ← if e.payload then submit execute e.value c else some c
    submit_all es c'

  -- The switch of `receive`.
  unfoldable pub dispatch : Kind → Message → Core S → Option (Core S)
  dispatch Kind.vote m c = if not (c.promise == 0) then some c else receive_votes m.from m.entries c
  dispatch Kind.prepare m c = some (prepare m c)
  dispatch Kind.promise m c = promise_page m c
  dispatch Kind.accept m c = accept m c
  dispatch Kind.accepted m c = accepted m c
  dispatch Kind.commit m c = learn_all m.entries c
  dispatch Kind.heartbeat m c = some (heartbeat m c)
  dispatch Kind.fetch m c = some (fetch m c)
  dispatch Kind.data_entries m c = receive_data m.entries c
  dispatch Kind.forward m c =
      if c.promise == 0 || not (owner c ==ℤ c.id) || not c.active
      then some c
      else submit_all m.entries c
  dispatch Kind.nack m c = some (supersede m c)
  dispatch Kind.recover m c = some (if c.promise == 0 then stall c else c)
  dispatch Kind.unknown m c = some c

  unfoldable pub receive : Message → Core S → Option (Core S)
  receive m c =
      if ltb_ℤ m.from (pos 0) || leb_ℤ (pos c.n) m.from
      then some c
      else dispatch m.kind m (record c { heard = set_heard (pos_part m.from) c.now c.heard })

  unfoldable pub step : Event → Core S → Option (Core S)
  step (proposed v) c = submit execute v c
  step (received m) c = receive m c
  step (ticked now) c = tick now c
