-- ===== src/Curp/Keeps/Tick.antt =====
-- The events of a replica: `tick` of curp/core.go and the adapter of curp/replica.go.
use consensus_arena.Prelude.{
  ℕ, zero, suc, if_both, Bool, false, not, ◌&&◌, ltb, ◌-◌, List, [], ◌∷◌, Option, none, some,
  if◌then◌else◌, arith,
}
use consensus_arena.Prelude.Int.{int_eq, ltb_ℤ, leb_ℤ}
use consensus_arena.State.{Command, Value}
use consensus_arena.Paxos.Defs.{id_eq, Request, next, ◌>>=◌}
use consensus_arena.Paxos.Recovery.{next_ballot}
use consensus_arena.Paxos.Events.{alive_at}
use consensus_arena.Curp.Defs.{Core, Output, emit}
use consensus_arena.Curp.Recovery.{activate, begin}
use consensus_arena.Curp.Events.{resume_loop, tick_leader, tick_preparing, tick, step, Event}
use consensus_arena.Curp.Keeps.{
  Keeps, KeepsOption, Keeps-refl, bind-Keeps, from-Keeps, submit-Keeps,
}
use consensus_arena.Curp.Keeps.Recovery.{
  activate-Keeps, flush-Keeps, send_suffix-Keeps, receive_prepare-Keeps,
}
use consensus_arena.Curp.Keeps.Receive.{receive-Keeps}

module _ {S : Type 0} where
  done : {c : Core S} → KeepsOption c (some c)
  done {c} = KeepsOption.keeps (Keeps-refl c)

  ask-Keeps :
      {A : Type 0} {c : Core S} (o : Option A) {f : A → Option (Core S)}
      → ((a : A) → KeepsOption c (f a))
      → KeepsOption c (o >>= f)
  ask-Keeps none h = KeepsOption.panics
  ask-Keeps (some a) h = h a

  -- What goes out with the time of it.
  marked-Keeps :
      (o : Output) (now : ℕ) (c : Core S) → Keeps c (emit o (record c { last_send = now }))
  marked-Keeps o now c = ground arith

  resume_loop-Keeps : (k : ℕ) (rs : List Request) (c : Core S) → KeepsOption c (resume_loop k rs c)
  unfolding resume_loop
  resume_loop-Keeps k [] c = done
  resume_loop-Keeps zero (r ∷ rs) c = done
  resume_loop-Keeps (suc k) (r ∷ rs) c =
      from-Keeps {d = record c { resume = rs }} (ground arith)
        (bind-Keeps (if_both (KeepsOption _) _ (submit-Keeps r _) done) (resume_loop-Keeps k rs))

  -- The core with the least of its ballot and of that of an election that it begins: the product of
  -- `begin` wraps.
  abbrev pub lowered : Core S → Core S
  lowered c =
      let ballot = next_ballot c.ballot c.n c.id in
      record c { ballot = if ltb_ℤ ballot c.ballot then ballot else c.ballot }

  lowered-Keeps : (c : Core S) → Keeps (lowered c) c
  lowered-Keeps c = ground arith

module _ {S : Type 0} (execute : Command → S → S × Value) where
  begin-Keeps : (now : ℕ) (c : Core S) → KeepsOption (lowered c) (begin execute now c)
  unfolding begin
  begin-Keeps now c = from-Keeps (ground arith) (receive_prepare-Keeps execute now _ _)

  tick_leader-Keeps : (now : ℕ) (c : Core S) → KeepsOption c (tick_leader execute now c)
  unfolding tick_leader
  tick_leader-Keeps now c =
      let c1 : Core S = if not c.active && leb_ℤ c.recovery_end c.executed then activate c else c in
      from-Keeps {d = c1} (if_both (Keeps c) _ (activate-Keeps execute c) (Keeps-refl c)) (
        bind-Keeps (if_both (KeepsOption c1) c1.active (flush-Keeps execute now c1) done) (λ d.
          if_both (KeepsOption d) (ltb (now - d.last_send) 200_000_000) done (
            from-Keeps (marked-Keeps _ now d)
              (send_suffix-Keeps execute now d.id (next d.executed) false _))))

  tick_preparing-Keeps : (now : ℕ) (c : Core S) → KeepsOption c (tick_preparing execute now c)
  unfolding tick_preparing
  tick_preparing-Keeps now c =
      if_both (KeepsOption c) _ done
        (from-Keeps (marked-Keeps _ now c) (receive_prepare-Keeps execute now _ _))

  tick-Keeps :
      (now : ℕ) (alive : List Bool) (c : Core S)
      → KeepsOption (lowered c) (tick execute now alive c)
  unfolding tick
  tick-Keeps now alive c = ask-Keeps (alive_at c.leader alive) (λ leader_alive.
      bind-Keeps
        (if_both (KeepsOption (lowered c)) _ (begin-Keeps now c)
          (KeepsOption.keeps (lowered-Keeps c)))
        (λ d. bind-Keeps (if_both (KeepsOption d) _ (resume_loop-Keeps _ _ d) done) (λ e.
          if_both (KeepsOption e) _ (tick_preparing-Keeps now e)
            (if_both (KeepsOption e) _ (tick_leader-Keeps now e) done))))

  pub step-Keeps :
      (now : ℕ) (event : Event) (c : Core S) → KeepsOption (lowered c) (step execute now event c)
  unfolding step
  step-Keeps now (Event.proposed r) c = from-Keeps (lowered-Keeps c) (submit-Keeps r c)
  step-Keeps now (Event.received p) c = from-Keeps (lowered-Keeps c) (receive-Keeps execute now p c)
  step-Keeps now (Event.ticked alive) c =
      if_both (KeepsOption (lowered c)) _ (tick-Keeps now alive c)
        (KeepsOption.keeps (lowered-Keeps c))
