-- ===== src/FastPaxos/Keeps/Ticks.antt =====
-- The clock of a replica: `tick` of fastpaxos/core.go.
use consensus_arena.Prelude.{
  ℕ, refl, true, not, ◌&&◌, List, [], ◌∷◌, Option, none, some, if◌then◌else◌, arith, if_both, leb,
  ◌==◌,
}
use consensus_arena.Prelude.Int.{int_eq}
use consensus_arena.Prelude.Maps.{has}
use consensus_arena.Paxos.Defs.{RequestId, id_eq, count_up, next}
use consensus_arena.FastPaxos.Defs.{Entry}
use consensus_arena.FastPaxos.Core.{Core, Pending, Kind, message, slot_at, owner, broadcast}
use consensus_arena.FastPaxos.Ticks.{
  forward_pages, beat, age, elect, retry_prepare, lead, ask_next, forward_old, retry, tick,
}
use consensus_arena.FastPaxos.Keeps.{
  Keeps, Keeps-refl, Keeps-trans, KeepsOption, from-Keeps, bind-Keeps, done, same-Keeps,
}
use consensus_arena.FastPaxos.Keeps.Normal.{send-Keeps, broadcast-Keeps, flush-Keeps}
use consensus_arena.FastPaxos.Keeps.Recovery.{begin-Keeps, resend-Keeps}

module _ {S : Type 0} where
  forward_pages-Keeps :
      (ids : List RequestId) (page : List Entry) (c : Core S) → Keeps c (forward_pages ids page c)
  unfolding forward_pages
  forward_pages-Keeps [] page c = if_both (Keeps c) _ (Keeps-refl c) (send-Keeps (owner c) _ c)
  forward_pages-Keeps (id ∷ ids) page c =
      if_both (Keeps c) _ (Keeps-trans (send-Keeps (owner c) _ c) (forward_pages-Keeps ids [] _))
        (forward_pages-Keeps ids _ c)

  beat-Keeps : (c : Core S) → Keeps c (beat c)
  unfolding beat
  beat-Keeps c =
      if_both (Keeps c) _
        (Keeps-trans (broadcast-Keeps _ c) (same-Keeps _ _ refl refl (omega arith) refl refl refl))
        (Keeps-refl c)

  age-Keeps : (c : Core S) → Keeps c (age c)
  unfolding age
  age-Keeps c = go c.pending
    where
      go :
          (ps : List Pending)
          → Keeps c (elim ps [
            | [] ↦ c
            | p ∷ rest ↦
                if c.promise == 0 && not c.stalled && leb p.retry_at c.now
                then record c { stalled = true; age_fallbacks = count_up c.age_fallbacks }
                else c
          ])
      go [] = Keeps-refl c
      go (p ∷ ps) =
          if_both (Keeps c) _ (same-Keeps c _ refl refl (omega arith) refl refl refl) (Keeps-refl c)

  elect-Keeps : (c : Core S) → Keeps c (elect c)
  unfolding elect
  elect-Keeps c =
      Keeps-trans (if_both (Keeps c) _ (begin-Keeps c) (Keeps-refl c))
        (if_both (Keeps _) _ (send-Keeps _ _ _) (Keeps-refl _))

  retry_prepare-Keeps : (c : Core S) → Keeps c (retry_prepare c)
  unfolding retry_prepare
  retry_prepare-Keeps c =
      if_both (Keeps c) _
        (Keeps-trans (broadcast-Keeps _ c) (same-Keeps _ _ refl refl (omega arith) refl refl refl))
        (Keeps-refl c)

  lead-Keeps : (c : Core S) → KeepsOption c (lead c)
  unfolding lead
  lead-Keeps c = if_both (KeepsOption c) _ done (
      bind-Keeps (flush-Keeps c) (λ d. KeepsOption.keeps (
        if_both (Keeps d) _
          (Keeps-trans (resend-Keeps d) (same-Keeps _ _ refl refl (omega arith) refl refl refl))
          (Keeps-refl d))))

  ask_next-Keeps : (c : Core S) → Keeps c (ask_next c)
  unfolding ask_next
  ask_next-Keeps c = go (slot_at (next c.executed) c).chosen
    where
      go :
          (o : Option Entry)
          → Keeps c (elim o [
            | none ↦ c
            | some e ↦
                if not e.value.noop && not (has e.value.id c.known)
                then broadcast (record (message Kind.fetch) { entries = e ∷ [] }) c
                else c
          ])
      go none = Keeps-refl c
      go (some e) = if_both (Keeps c) _ (broadcast-Keeps _ c) (Keeps-refl c)

  forward_old-Keeps : (c : Core S) → Keeps c (forward_old c)
  unfolding forward_old
  forward_old-Keeps c =
      if_both (Keeps c) _
        (Keeps-trans (same-Keeps c _ refl refl (omega arith) refl refl refl)
          (forward_pages-Keeps _ [] _))
        (Keeps-refl c)

  retry-Keeps : (c : Core S) → Keeps c (retry c)
  unfolding retry
  retry-Keeps c =
      if_both (Keeps c) _
        (Keeps-trans (same-Keeps c _ refl refl (omega arith) refl refl refl)
          (Keeps-trans (ask_next-Keeps _) (forward_old-Keeps _)))
        (Keeps-refl c)

  pub tick-Keeps : (now : ℕ) (c : Core S) → KeepsOption c (tick now c)
  unfolding tick
  tick-Keeps now c = from-Keeps (same-Keeps c _ refl refl (omega arith) refl refl refl) (
      from-Keeps
        (Keeps-trans (beat-Keeps _)
          (Keeps-trans (age-Keeps _) (Keeps-trans (elect-Keeps _) (retry_prepare-Keeps _))))
        (bind-Keeps (lead-Keeps _) (λ d. KeepsOption.keeps (retry-Keeps d))))
