-- ===== src/Paxos/Monotone.antt =====
-- What a packet cannot undo: paxos/core.go, `receive`.
use consensus_arena.Prelude.{ℕ, ◌≡◌, ap, subst, Option, some, get_or, arith}
use consensus_arena.Prelude.Int.{◌≤ℤ◌}
use consensus_arena.Prelude.Maps.{find}
use consensus_arena.State.{Command, Value}
use consensus_arena.Paxos.Defs.{RequestId, id_eq, Packet, Core}
use consensus_arena.Paxos.Events.{receive}
use consensus_arena.Paxos.Keeps.{Keeps, KeepsOption}
use consensus_arena.Paxos.Keeps.Receive.{receive-Keeps}

module _ {S : Type 0} where
  Keeps-some :
      {c : Core S} (d : Core S) {o : Option (Core S)} → KeepsOption c o → o ≡ some d → Keeps c d
  Keeps-some d KeepsOption.panics e = ground (arith, e)
  Keeps-some {c} d (KeepsOption.keeps k) e =
      subst (Keeps c) (ap (λ (o : Option (Core S)). get_or o d) e) k

module _ {S : Type 0} (execute : Command → S → S × Value) where
  -- A packet of any kind and content that does not make the replica panic leaves its identity and the
  -- number of replicas as they were, and its ballot no lower.
  pub receive-ballot :
      (now : ℕ) (p : Packet) (c d : Core S)
      → receive execute now p c ≡ some d
      → (d.n ≡ c.n) × (d.id ≡ c.id) × (c.ballot ≤ℤ d.ballot)
  receive-ballot now p c d e =
      let k = Keeps-some d (receive-Keeps execute now p c) e in (k.n, k.id, k.ballot)

  -- The result that is recorded for a request is still recorded for it after a packet of any kind and
  -- content that does not make the replica panic.
  pub receive-values :
      (now : ℕ) (p : Packet) (c d : Core S) (id : RequestId) (v : Value)
      → receive execute now p c ≡ some d
      → find id c.values ≡ some v
      → find id d.values ≡ some v
  receive-values now p c d id v e = (Keeps-some d (receive-Keeps execute now p c) e).values id v
