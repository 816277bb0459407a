-- ===== src/Curp/Monotone.antt =====
-- What no event undoes: curp/core.go, and the adapter of curp/replica.go.
use consensus_arena.Prelude.{
  ℕ, ◌≡◌, ◌∙◌, ap, subst, refl, ◌+◌, ◌*◌, ◌/◌, ◌<◌, Option, some, get_or, arith,
}
use consensus_arena.Prelude.Int.{pos, ◌≤ℤ◌, ◌<ℤ◌, int_max}
use consensus_arena.Prelude.Maps.{find}
use consensus_arena.State.{Command, Value}
use consensus_arena.Paxos.Defs.{RequestId, id_eq}
use consensus_arena.Paxos.Recovery.{next_ballot}
use consensus_arena.Paxos.Elections.{next_ballot_lem}
use consensus_arena.Curp.Defs.{Core}
use consensus_arena.Curp.Events.{Event, step}
use consensus_arena.Curp.Keeps.{Keeps, KeepsOption}
use consensus_arena.Curp.Keeps.Tick.{lowered, step-Keeps}

-- The states that a replica reaches from a state by events it survives, at any times.
pub data Reaches {S : Type 0} (execute : Command → S → S × Value) (c : Core S)
    : Core S → Type 0 where
  start : Reaches execute c c
  after :
      {d d' : Core S} (now : ℕ) (event : Event)
      → Reaches execute c d
      → step execute now event d ≡ some d'
      → Reaches execute c d'

module _ {S : Type 0} where
  Keeps-some :
      {c : Core S} (d : Core S) {o : Option (Core S)} → KeepsOption c o → o ≡ some d → Keeps c d
  Keeps-some d KeepsOption.panics e = ground (arith, e)
  Keeps-some {c} d (KeepsOption.keeps k) e =
      subst (Keeps c) (ap (λ (o : Option (Core S)). get_or o d) e) k

module _ {S : Type 0} (execute : Command → S → S × Value) where
  -- The result that is recorded for a request is still recorded for it, unchanged, after any sequence
  -- of proposals, packets of any kind and content and ticks that a CURP replica survives. Its identity
  -- and the number of replicas do not change either.
  pub values_are_final :
      (c d : Core S) (id : RequestId) (v : Value)
      → Reaches execute c d
      → find id c.values ≡ some v
      → (find id d.values ≡ some v) × (d.n ≡ c.n) × (d.id ≡ c.id)
  values_are_final c d id v Reaches.start h = (h, refl, refl)
  values_are_final c d id v (Reaches.after {d = b} {d'} now event r e) h =
      let (found, n, i) = values_are_final c b id v r h in
      let k = Keeps-some d' (step-Keeps execute now event b) e in
      (k.values id v found, k.n ∙ n, k.id ∙ i)

  -- An event of any kind that a CURP replica survives leaves its ballot no lower, while the ballot of
  -- an election it may begin fits int64. Premises: the ballot and the identity are not negative, and
  -- the identity is below the number of replicas.
  pub step-ballot :
      (now : ℕ) (event : Event) (c d : Core S) (b i : ℕ)
      → c.ballot ≡ pos b
      → c.id ≡ pos i
      → i < c.n
      → (b / c.n + 1) * c.n + i < int_max
      → step execute now event c ≡ some d
      → c.ballot ≤ℤ d.ballot
  step-ballot now event c d b i old me among fits e =
      subst (λ x. x ≤ℤ d.ballot) same (Keeps-some d (step-Keeps execute now event c) e).ballot
    where
      above : c.ballot <ℤ next_ballot c.ballot c.n c.id
      above = rw (old, me) (next_ballot_lem b c.n i among fits).0

      same : (lowered c).ballot ≡ c.ballot
      same = ground (arith, above)
