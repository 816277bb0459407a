-- ===== src/FastPaxos/Monotone.antt =====
-- What no sequence of events undoes: fastpaxos/core.go.
use consensus_arena.Prelude.{◌≡◌, ◌≤◌, refl, true, Option, none, some}
use consensus_arena.Prelude.Int.{ℤ}
use consensus_arena.Prelude.Maps.{find}
use consensus_arena.State.{Command, Value}
use consensus_arena.Paxos.Defs.{RequestId, id_eq}
use consensus_arena.FastPaxos.Defs.{Record, Entry, same_value}
use consensus_arena.FastPaxos.Core.{Core}
use consensus_arena.FastPaxos.Events.{Event, step}
use consensus_arena.FastPaxos.Keeps.{Agrees, chosen_at, Keeps, Keeps-refl, Keeps-trans, Keeps-some}
use consensus_arena.FastPaxos.Keeps.Receive.{step-Keeps}

-- The states that a replica reaches from a state by events it survives.
pub data Reaches {S : Type 0} (execute : Command → S → S × Value) (c : Core S)
    : Core S → Type 0 where
  start : Reaches execute c c
  after :
      {d d' : Core S} (event : Event)
      → Reaches execute c d
      → step execute event d ≡ some d'
      → Reaches execute c d'

module _ {S : Type 0} (execute : Command → S → S × Value) where
  Reaches-Keeps : {c d : Core S} → Reaches execute c d → Keeps c d
  Reaches-Keeps {c} Reaches.start = Keeps-refl c
  Reaches-Keeps (Reaches.after {d} {d'} event r e) =
      Keeps-trans (Reaches-Keeps r) (Keeps-some d' (step-Keeps execute event d) e)

  agreeing :
      (e : Entry) (o : Option Entry)
      → Agrees e o
      → (x : Entry) × (o ≡ some x) × (same_value x.value e.value ≡ true)
  agreeing e none h = absurd h
  agreeing e (some x) h = (x, refl, h)

  -- A slot that is decided stays decided, with an entry of the same value, through any sequence of
  -- client requests, messages of any content and ticks that the replica survives.
  pub decision_is_final :
      (c d : Core S) (s : ℤ) (e : Entry)
      → Reaches execute c d
      → chosen_at s c ≡ some e
      → (x : Entry) × (chosen_at s d ≡ some x) × (same_value x.value e.value ≡ true)
  decision_is_final c d s e r h = agreeing e (chosen_at s d) ((Reaches-Keeps r).chosen s e h)

  -- The result of a request and the payload that is known for it are still there, unchanged, after any
  -- sequence of client requests, messages of any content and ticks that the replica survives.
  pub results_are_final :
      (c d : Core S) (id : RequestId) (v : Value) (w : Record)
      → Reaches execute c d
      → find id c.results ≡ some v
      → find id c.known ≡ some w
      → (find id d.results ≡ some v) × (find id d.known ≡ some w)
  results_are_final c d id v w r h k =
      ((Reaches-Keeps r).results id v h, (Reaches-Keeps r).known id w k)

  -- The epoch that a replica promised never falls, and its identity and the number of replicas do not
  -- change, through any sequence of events that it survives.
  pub promise_never_falls :
      (c d : Core S) → Reaches execute c d → (c.promise ≤ d.promise) × (d.id ≡ c.id) × (d.n ≡ c.n)
  promise_never_falls c d r = let k = Reaches-Keeps r in (k.promise, k.id, k.n)
