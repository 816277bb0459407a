-- ===== src/Curp/Keeps/Proposals.antt =====
-- Fast replies and proposals: the loop of `flush` in curp/core.go.
use consensus_arena.Prelude.{
  ℕ, zero, suc, Bool, false, if_both, List, [], ◌∷◌, Option, none, some, if◌then◌else◌, arith,
}
use consensus_arena.Prelude.Int.{int_eq}
use consensus_arena.Prelude.Maps.{find, put, delete}
use consensus_arena.State.{Command, Value}
use consensus_arena.Paxos.Defs.{RequestId, id_eq, Request, Record, next}
use consensus_arena.Curp.Conflicts.{add}
use consensus_arena.Curp.Defs.{Core}
use consensus_arena.Curp.Normal.{
  is_fast, reply_fast, propose_request, FlushStep, flush_step, flush_loop,
}
use consensus_arena.Curp.Keeps.{Keeps, Keeps-refl, Keeps-trans}

module _ {S : Type 0} where
  data FlushKeeps (c : Core S) : FlushStep S → Type 0 where
    stops : FlushKeeps c FlushStep.stop
    panics : FlushKeeps c FlushStep.panics
    skips : {d : Core S} → Keeps c d → FlushKeeps c (FlushStep.skip d)
    proposes : {d : Core S} (r : Record) → Keeps c d → FlushKeeps c (FlushStep.propose r d)

  -- The same for the result of the loop of `flush`.
  pub data LoopKeeps (c : Core S) : Option (Core S × List Record) → Type 0 where
    panics : LoopKeeps c none
    keeps : {d : Core S} (rs : List Record) → Keeps c d → LoopKeeps c (some (d, rs))

  reply_fast-Keeps :
      (execute : Command → S → S × Value) (r : Request) (c : Core S)
      → Keeps c (reply_fast execute r c)
  unfolding reply_fast
  reply_fast-Keeps execute r c = ground arith

  propose_request-Keeps :
      (execute : Command → S → S × Value) (r : Request) (c : Core S)
      → FlushKeeps c (propose_request execute r c)
  unfolding propose_request
  propose_request-Keeps execute r c = go (is_fast execute r c)
    where
      rec : Record
      rec = record { slot = next c.high; ballot = c.ballot; request = r; committed = false }

      placed : Core S
      placed = record c {
        high = next c.high;
        log = put (next c.high) rec c.log;
        pending_index = add r c.pending_index;
        assigned = put r.id (next c.high) c.assigned;
      }

      go :
          (o : Option Bool)
          → FlushKeeps c (elim o [
            | none ↦ FlushStep.panics
            | some fast ↦
                FlushStep.propose rec (if fast then reply_fast execute r placed else placed)
          ])
      go none = FlushKeeps.panics
      go (some fast) = FlushKeeps.proposes rec (
          Keeps-trans {b = placed} (ground arith)
            (if_both (Keeps placed) fast (reply_fast-Keeps execute r placed) (Keeps-refl placed)))

  flush_step-Keeps :
      (execute : Command → S → S × Value) (id : RequestId) (queue : List RequestId) (c : Core S)
      → FlushKeeps c (flush_step execute id queue c)
  unfolding flush_step
  flush_step-Keeps execute id queue c =
      if_both (FlushKeeps c) _ FlushKeeps.stops
        (if_both (FlushKeeps c) _ (FlushKeeps.skips popped) (asked (find id c.pending)))
    where
      rest : Core S
      rest = record c { queue = queue; queued = delete id c.queued }

      popped : Keeps c rest
      popped = ground arith

      from_rest : {f : FlushStep S} → FlushKeeps rest f → FlushKeeps c f
      from_rest FlushKeeps.stops = FlushKeeps.stops
      from_rest FlushKeeps.panics = FlushKeeps.panics
      from_rest (FlushKeeps.skips h) = FlushKeeps.skips (Keeps-trans popped h)
      from_rest (FlushKeeps.proposes r h) = FlushKeeps.proposes r (Keeps-trans popped h)

      asked :
          (o : Option Request)
          → FlushKeeps c
              (elim o [ none ↦ FlushStep.skip rest | some r ↦ propose_request execute r rest ])
      asked none = FlushKeeps.skips popped
      asked (some r) = from_rest (propose_request-Keeps execute r rest)

  pub flush_loop-Keeps :
      (execute : Command → S → S × Value) (queue : List RequestId) (room : ℕ) (c : Core S)
      → LoopKeeps c (flush_loop execute queue room c)
  unfolding flush_loop
  flush_loop-Keeps execute [] room c = LoopKeeps.keeps [] (Keeps-refl c)
  flush_loop-Keeps execute (id ∷ queue) zero c = LoopKeeps.keeps [] (Keeps-refl c)
  flush_loop-Keeps execute (id ∷ queue) (suc room) c =
      go (flush_step execute id queue c) (flush_step-Keeps execute id queue c)
        (flush_loop-Keeps execute queue)
    where
      after :
          {d : Core S} {o : Option (Core S × List Record)}
          → Keeps c d
          → LoopKeeps d o
          → LoopKeeps c o
      after h LoopKeeps.panics = LoopKeeps.panics
      after h (LoopKeeps.keeps rs k) = LoopKeeps.keeps rs (Keeps-trans h k)

      more :
          {d : Core S} (rec : Record) {o : Option (Core S × List Record)}
          → Keeps c d
          → LoopKeeps d o
          → LoopKeeps c (elim o [ none ↦ none | some rest ↦ some (rest.0, rec ∷ rest.1) ])
      more rec h LoopKeeps.panics = LoopKeeps.panics
      more rec h (LoopKeeps.keeps rs k) = LoopKeeps.keeps (rec ∷ rs) (Keeps-trans h k)

      go :
          (f : FlushStep S)
          → FlushKeeps c f
          → ((room : ℕ) (d : Core S) → LoopKeeps d (flush_loop execute queue room d))
          → LoopKeeps c (elim f [
            | FlushStep.stop ↦ some (c, [])
            | FlushStep.panics ↦ none
            | FlushStep.skip c' ↦ flush_loop execute queue (suc room) c'
            | FlushStep.propose rec c' ↦ elim (flush_loop execute queue room c') [
              | none ↦ none
              | some rest ↦ some (rest.0, rec ∷ rest.1)
            ]
          ])
      go f FlushKeeps.stops ih = LoopKeeps.keeps [] (Keeps-refl c)
      go f FlushKeeps.panics ih = LoopKeeps.panics
      go f (FlushKeeps.skips {d} k) ih = after k (ih (suc room) d)
      go f (FlushKeeps.proposes {d} r k) ih = more r k (ih room d)
