-- ===== src/Curp/Events.antt =====
-- The events of a replica: `receive`, `tick` and the adapter of curp/replica.go.
use consensus_arena.Prelude.{
  ℕ, zero, suc, ◌-◌, Bool, true, false, not, ◌&&◌, ◌||◌, List, [], ◌∷◌, Option, none, some, ltb,
  ◌==◌, if◌then◌else◌, length,
}
use consensus_arena.Prelude.Int.{int_eq, ℤ, pos, ◌==ℤ◌, ltb_ℤ, leb_ℤ}
use consensus_arena.Prelude.Maps.{find, put, has}
use consensus_arena.State.{Command, Value}
use consensus_arena.Paxos.Defs.{
  id_eq, Request, Record, Packet, packet, Kind, next, page_size, ◌>>=◌,
}
use consensus_arena.Paxos.Recovery.{bool_int}
use consensus_arena.Paxos.Events.{candidate_from, alive_at, is_ready}
use consensus_arena.Curp.Defs.{Core, broadcasted, emit}
use consensus_arena.Curp.Normal.{submit, install, request_fetch, apply, accept, flush, ack}
use consensus_arena.Curp.Recovery.{
  schedule_pending, activate, send_suffix, promise_reply, receive_prepare, begin,
}

-- An event of the replica's loop, which serializes them.
pub data Event : Type 0 where
  proposed : Request → Event
  received : Packet → Event
  ticked : List Bool → Event

module _ {S : Type 0} where
  unfoldable pub submit_all : List Request → Core S → Option (Core S)
  submit_all [] c = some c
  submit_all (r ∷ rs) c = do c' ← submit r c; submit_all rs c'

  -- c.log[r.Slot].Committed = true
  abbrev pub mark_committed : ℤ → Core S → Core S
  mark_committed slot c = elim (find slot c.log) [
    | none ↦ c
    | some r ↦ record c { log = put slot (record r { committed = true }) c.log }
  ]

  unfoldable pub install_committed : List Record → Core S → Option (Core S)
  install_committed [] c = some c
  install_committed (r ∷ rs) c = do
    c' ← install r c
    install_committed rs (mark_committed r.slot c')

  -- The leader says that it is active.
  unfoldable pub resume_active : Packet → Core S → Core S
  resume_active p c =
      if p.floor ==ℤ pos 1 && not c.active then schedule_pending (record c { active = true }) else c

  unfoldable pub receive_ready : ℕ → Packet → Core S → Core S
  receive_ready now p c =
      if not (p.from ==ℤ c.leader)
      then c
      else let c' : Core S = resume_active p c in
        if ltb_ℤ c'.executed p.high then request_fetch now c' else c'

  -- A Ready of a higher ballot is followed at once.
  unfoldable pub follow_higher : Packet → Core S → Core S
  follow_higher p c =
      if is_ready p.kind && ltb_ℤ c.ballot p.ballot
      then record c {
        ballot = p.ballot;
        leader = p.from;
        preparing = false;
        active = false;
        votes = [];
      }
      else c

  -- The requests put off by a change of leader, a page at a time.
  unfoldable pub resume_loop : ℕ → List Request → Core S → Option (Core S)
  resume_loop k [] c = some c
  resume_loop zero (r ∷ rs) c = some c
  resume_loop (suc k) (r ∷ rs) c = do
    let c1 : Core S = record c { resume = rs }
    c2 ← if has r.id c1.pending then submit r c1 else some c1
    resume_loop k rs c2

module _ {S : Type 0} (execute : Command → S → S × Value) where
  -- The switch of `receive`, for a packet of the core's ballot.
  unfoldable pub dispatch : ℕ → Kind → Packet → Core S → Option (Core S)
  dispatch now Kind.promise p c = promise_reply execute now p c
  dispatch now Kind.accept p c = if p.from ==ℤ c.leader then accept execute now p c else some c
  dispatch now Kind.ack p c = some (ack execute p c)
  dispatch now Kind.commit p c =
      if not (p.from ==ℤ c.leader)
      then some c
      else do c' ← install_committed p.records c; some (apply execute c')
  dispatch now Kind.ready p c = some (receive_ready now p c)
  dispatch now Kind.fetch p c =
      if c.leader ==ℤ c.id then send_suffix execute now p.from p.floor true c else some c
  dispatch now Kind.forward p c =
      if c.id ==ℤ c.leader && c.active then submit_all p.requests c else some c
  dispatch now Kind.prepare p c = some c
  dispatch now Kind.unknown p c = some c

  -- The part of `receive` behind the branch for Prepare.
  unfoldable pub receive_other : ℕ → Packet → Core S → Option (Core S)
  receive_other now p c =
      if ltb_ℤ p.from (pos 0) || leb_ℤ (pos c.n) p.from
      then some c
      else let c' : Core S = follow_higher p c in
        if not (p.ballot ==ℤ c'.ballot) then some c' else dispatch now p.kind p c'

  unfoldable pub receive_kind : ℕ → Kind → Packet → Core S → Option (Core S)
  receive_kind now Kind.prepare p c = receive_prepare execute now p c
  receive_kind now _ p c = receive_other now p c

  unfoldable pub receive : ℕ → Packet → Core S → Option (Core S)
  receive now p c = receive_kind now p.kind p c

  -- The part of `tick` for a replica that leads and does not prepare.
  unfoldable pub tick_leader : ℕ → Core S → Option (Core S)
  tick_leader now c =
      let c1 : Core S = if not c.active && leb_ℤ c.recovery_end c.executed then activate c else c in
      do
        c2 ← if c1.active then flush execute now c1 else some c1
        if ltb (now - c2.last_send) 200_000_000
            then some c2
            else send_suffix execute now c2.id (next c2.executed) false (
                emit
                  (broadcasted (record (packet Kind.ready c2.id c2.ballot) {
                    high = c2.executed;
                    floor = bool_int c2.active;
                  }))
                  (record c2 { last_send = now }))

  -- The part of `tick` for a replica that prepares: it asks again every second.
  unfoldable pub tick_preparing : ℕ → Core S → Option (Core S)
  tick_preparing now c =
      if ltb (now - c.last_send) 1_000_000_000
      then some c
      else let p = record (packet Kind.prepare c.id c.ballot) { floor = next c.executed } in
        receive_prepare execute now p (emit (broadcasted p) (record c { last_send = now }))

  unfoldable pub tick : ℕ → List Bool → Core S → Option (Core S)
  tick now alive c = do
    leader_alive ← alive_at c.leader alive
    c1 ←
        (if not leader_alive && candidate_from 0 alive ==ℤ c.id && not c.preparing
          then begin execute now c
          else some c)
    c2 ← if c1.active then resume_loop page_size c1.resume c1 else some c1
    if c2.preparing
        then tick_preparing now c2
        else if c2.leader ==ℤ c2.id
        then tick_leader now c2
        else some c2

  unfoldable pub step : ℕ → Event → Core S → Option (Core S)
  step now (proposed r) c = submit r c
  step now (received p) c = receive now p c
  step now (ticked alive) c = if length alive == c.n then tick now alive c else some c
