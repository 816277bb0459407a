-- ===== src/FastPaxos/Keeps/Normal.antt =====
-- Payloads, votes and proposals: the methods of fastpaxos/core.go up to `flush`.
use consensus_arena.Prelude.{
  ℕ, zero, suc, ◌≡◌, refl, not, ◌&&◌, List, [], ◌∷◌, Option, none, some, get_or, if◌then◌else◌,
  arith, if_both,
}
use consensus_arena.Prelude.Int.{int_eq, ℤ, negsuc}
use consensus_arena.Prelude.Maps.{find, put, find-put}
use consensus_arena.Paxos.Defs.{RequestId, id_eq, id_beq_iff}
use consensus_arena.FastPaxos.Defs.{Record, Entry, same_value}
use consensus_arena.FastPaxos.Core.{
  Core, Message, slot_at, put_slot, open_slot, send, broadcast, remember, forget_pending, enqueue,
  cast_vote, defer, cast, propose_fast, same_command, no_record, is_pending,
}
use consensus_arena.FastPaxos.Normal.{Round, flush_round, flush_rounds, offer, flush, propose_again}
use consensus_arena.FastPaxos.Keeps.{
  Keeps, Keeps-refl, Keeps-trans, KeepsOption, KeepsPair, from-Keeps, bind-Keeps, end-KeepsPair,
  done, same-Keeps, update-Keeps,
}

module _ {S : Type 0} where
  pub open_slot-Keeps : (s : ℤ) (c : Core S) → KeepsOption c (open_slot s c)
  unfolding open_slot
  open_slot-Keeps s c = if_both (KeepsOption c) _ KeepsOption.panics (
      KeepsOption.keeps (
        Keeps-trans (update-Keeps s (slot_at s c) c refl)
          (same-Keeps _ _ refl refl (omega arith) refl refl refl)))

  pub send-Keeps : (to : ℤ) (m : Message) (c : Core S) → Keeps c (send to m c)
  unfolding send
  send-Keeps to m c = same-Keeps c _ refl refl (omega arith) refl refl refl

  pub broadcast-Keeps : (m : Message) (c : Core S) → Keeps c (broadcast m c)
  unfolding broadcast
  broadcast-Keeps m c = send-Keeps (negsuc 0) m c

  pub remember-Keeps : (v : Record) (c : Core S) → KeepsOption c (remember v c)
  unfolding remember
  remember-Keeps v c = if_both (KeepsOption c) _ done (known_case (find v.id c.known) refl)
    where
      known_case :
          (o : Option Record)
          → find v.id c.known ≡ o
          → KeepsOption c (elim o [
            | none ↦ some (record c { known = put v.id v c.known })
            | some old ↦ if same_command old.command v.command then some c else none
          ])
      known_case none e = KeepsOption.keeps (record {
        n = refl;
        id = refl;
        promise = omega arith;
        results = λ i w h. h;
        known = λ i r h. ground (arith, find-put v.id i v c.known, id_beq_iff v.id i, e, h);
        chosen = (Keeps-refl c).chosen;
      })
      known_case (some old) e = if_both (KeepsOption c) _ done KeepsOption.panics

  pub forget_pending-Keeps : (id : RequestId) (c : Core S) → Keeps c (forget_pending id c)
  unfolding forget_pending
  forget_pending-Keeps id c = same-Keeps c _ refl refl (omega arith) refl refl refl

  pub enqueue-Keeps : (id : RequestId) (c : Core S) → Keeps c (enqueue id c)
  unfolding enqueue
  enqueue-Keeps id c =
      if_both (Keeps c) _ (Keeps-refl c) (same-Keeps c _ refl refl (omega arith) refl refl refl)

  pub cast_vote-Keeps : (e : Entry) (c : Core S) → Keeps c (cast_vote e c)
  unfolding cast_vote
  cast_vote-Keeps e c = Keeps-trans (update-Keeps e.slot _ c refl) (broadcast-Keeps _ _)

  pub defer-Keeps : (e : Entry) (c : Core S) → Keeps c (defer e c)
  unfolding defer
  defer-Keeps e c = Keeps-trans (update-Keeps e.slot _ c refl) (broadcast-Keeps _ _)

  pub cast-Keeps : (e : Entry) (c : Core S) → KeepsOption c (cast e c)
  unfolding cast
  cast-Keeps e c = if_both (KeepsOption c) _ done (
      bind-Keeps (open_slot-Keeps e.slot c) (λ d. KeepsOption.keeps (
        if_both (Keeps d) _ (Keeps-refl d)
          (if_both (Keeps d) _ (cast_vote-Keeps e d) (payload d (find e.value.id d.known))))))
    where
      payload :
          (d : Core S) (o : Option Record)
          → Keeps d (elim o [ none ↦ defer e d | some v ↦ cast_vote (record e { value = v }) d ])
      payload d none = defer-Keeps e d
      payload d (some v) = cast_vote-Keeps (record e { value = v }) d

  pub propose_fast-Keeps : (v : Record) (c : Core S) → KeepsOption c (propose_fast v c)
  unfolding propose_fast
  propose_fast-Keeps v c =
      if_both (KeepsOption c) _
        (KeepsOption.keeps (same-Keeps c _ refl refl (omega arith) refl refl refl))
        (from-Keeps (same-Keeps c _ refl refl (omega arith) refl refl refl) (
          bind-Keeps (open_slot-Keeps c.next_slot _)
            (λ d. from-Keeps (update-Keeps c.next_slot _ d refl) (cast-Keeps _ _))))

  -- A round of `flush` keeps them, if it goes on.
  pub data RoundKeeps (c : Core S) : Round S → Type 0 where
    stop : RoundKeeps c Round.stop
    panics : RoundKeeps c Round.panics
    skip : {d : Core S} → Keeps c d → RoundKeeps c (Round.skip d)
    propose : (e : Entry) {d : Core S} → Keeps c d → RoundKeeps c (Round.propose e d)

  round-open :
      (c c' : Core S) (e : Entry) (o : Option (Core S))
      → Keeps c c'
      → KeepsOption c' o
      → RoundKeeps c (elim o [
        | none ↦ Round.panics
        | some d ↦
            Round.propose e
              (put_slot e.slot (record (slot_at e.slot d) { proposed = some e; acks = 0 }) d)
      ])
  round-open c c' e o h KeepsOption.panics = panics
  round-open c c' e o h (KeepsOption.keeps {d} k) =
      propose e (Keeps-trans h (Keeps-trans k (update-Keeps e.slot _ d refl)))

  flush_round-Keeps :
      (id : RequestId) (queue : List RequestId) (c : Core S) → RoundKeeps c (flush_round id queue c)
  unfolding flush_round
  flush_round-Keeps id queue c = if_both (RoundKeeps c) _ stop (
      if_both (RoundKeeps c) _ (skip (same-Keeps c _ refl refl (omega arith) refl refl refl)) (
        round-open c _ _ _ (same-Keeps c _ refl refl (omega arith) refl refl refl)
          (open_slot-Keeps c.next_slot _)))

  flush_rounds-Keeps :
      (queue : List RequestId) (room : ℕ) (c : Core S)
      → KeepsPair (List Entry) c (flush_rounds queue room c)
  unfolding flush_rounds
  flush_rounds-Keeps [] room c = KeepsPair.keeps [] (Keeps-refl c)
  flush_rounds-Keeps (id ∷ queue) zero c = KeepsPair.keeps [] (Keeps-refl c)
  flush_rounds-Keeps (id ∷ queue) (suc room) c =
      go (flush_round id queue c) (flush_round-Keeps id queue c) (flush_rounds-Keeps queue)
    where
      more :
          (d : Core S) (e : Entry) (o : Option (Core S × List Entry))
          → Keeps c d
          → KeepsPair (List Entry) d o
          → KeepsPair
              (List Entry)
              c
              (elim o [ none ↦ none | some rest ↦ some (rest.0, e ∷ rest.1) ])
      more d e o h KeepsPair.panics = KeepsPair.panics
      more d e o h (KeepsPair.keeps es k) = KeepsPair.keeps (e ∷ es) (Keeps-trans h k)

      after :
          (d : Core S) (o : Option (Core S × List Entry))
          → Keeps c d
          → KeepsPair (List Entry) d o
          → KeepsPair (List Entry) c o
      after d o h KeepsPair.panics = KeepsPair.panics
      after d o h (KeepsPair.keeps es k) = KeepsPair.keeps es (Keeps-trans h k)

      go :
          (r : Round S)
          → RoundKeeps c r
          → ((k : ℕ) (d : Core S) → KeepsPair (List Entry) d (flush_rounds queue k d))
          → KeepsPair (List Entry) c (elim r [
            | Round.stop ↦ some (c, [])
            | Round.panics ↦ none
            | Round.skip c' ↦ flush_rounds queue (suc room) c'
            | Round.propose e c' ↦ elim (flush_rounds queue room c') [
              | none ↦ none
              | some rest ↦ some (rest.0, e ∷ rest.1)
            ]
          ])
      go r RoundKeeps.stop ih = KeepsPair.keeps [] (Keeps-refl c)
      go r RoundKeeps.panics ih = KeepsPair.panics
      go r (RoundKeeps.skip {d} h) ih = after d _ h (ih (suc room) d)
      go r (RoundKeeps.propose e {d} h) ih = more d e _ h (ih room d)

  offer-Keeps : (es : List Entry) (c : Core S) → Keeps c (offer es c)
  unfolding offer
  offer-Keeps [] c = Keeps-refl c
  offer-Keeps (e ∷ es) c = broadcast-Keeps _ c

  pub flush-Keeps : (c : Core S) → KeepsOption c (flush c)
  unfolding flush
  flush-Keeps c = if_both (KeepsOption c) _ done (
      end-KeepsPair (flush_rounds-Keeps c.queue _ c) (λ x. KeepsOption.keeps (offer-Keeps x.1 x.0)))

  pub propose_again-Keeps : (e : Entry) (c : Core S) → KeepsOption c (propose_again e c)
  unfolding propose_again
  propose_again-Keeps e c = if_both (KeepsOption c) _ done (again (slot_at e.slot c).local)
    where
      again :
          (o : Option RequestId)
          → KeepsOption c (elim o [
            | none ↦ some c
            | some id ↦
                let v = get_or (find id c.known) no_record in
                if not (same_value (record no_record { id = id }) e.value)
                  && is_pending id c.pending
                then propose_fast v (put_slot e.slot (record (slot_at e.slot c) { local = none }) c)
                else some c
          ])
      again none = done
      again (some id) =
          if_both (KeepsOption c) _
            (from-Keeps (update-Keeps e.slot _ c refl) (propose_fast-Keeps _ _)) done
