-- ===== src/FastPaxos/Keeps/Receive.antt =====
-- The events of a replica: `receive` of fastpaxos/core.go.
use consensus_arena.Prelude.{
  ℕ, refl, true, not, List, [], ◌∷◌, Option, none, some, get_or, if◌then◌else◌, arith, if_both, ltb,
  ◌==◌, is_some, ◌+◌, ◌/◌,
}
use consensus_arena.Prelude.Int.{int_eq, ℤ}
use consensus_arena.Prelude.Maps.{find}
use consensus_arena.State.{Command, Value}
use consensus_arena.ReplicaSet.{with, size}
use consensus_arena.Paxos.Defs.{id_eq, count_up, ◌>>=◌}
use consensus_arena.FastPaxos.Defs.{Entry}
use consensus_arena.FastPaxos.Core.{Core, Kind, Message, slot_at, put_slot, no_record}
use consensus_arena.FastPaxos.Normal.{learn}
use consensus_arena.FastPaxos.Events.{
  settle, receive_vote, receive_votes, receive_accepted, receive_all_accepted, accepted, learn_all,
  receive_data, submit_all, dispatch, receive, step, Event,
}
use consensus_arena.FastPaxos.Keeps.{
  Keeps, Keeps-refl, Keeps-trans, KeepsOption, KeepsPair, from-Keeps, bind-Keeps, bind-KeepsPair,
  then-KeepsPair, end-KeepsPair, done, same-Keeps, update-Keeps,
}
use consensus_arena.FastPaxos.Keeps.Normal.{open_slot-Keeps}
use consensus_arena.FastPaxos.Keeps.Decisions.{apply-Keeps, learn-Keeps, submit-Keeps}
use consensus_arena.FastPaxos.Keeps.Recovery.{
  prepare-Keeps, remember_all-Keeps, announce-Keeps, promise_page-Keeps,
}
use consensus_arena.FastPaxos.Keeps.Ticks.{tick-Keeps}
use consensus_arena.FastPaxos.Keeps.Requests.{
  accept-Keeps, heartbeat-Keeps, fetch-Keeps, cast_deferred-Keeps, supersede-Keeps,
}

module _ {S : Type 0} (execute : Command → S → S × Value) where
  settle-Keeps : (e : Entry) (c : Core S) → KeepsOption c (settle execute e c)
  unfolding settle
  settle-Keeps e c =
      if_both (KeepsOption c) _
        (from-Keeps (same-Keeps c _ refl refl (omega arith) refl refl refl)
          (learn-Keeps execute e _))
        (KeepsOption.keeps (
          if_both (Keeps c) _ (same-Keeps c _ refl refl (omega arith) refl refl refl)
            (Keeps-refl c)))

  receive_vote-Keeps :
      (from : ℤ) (e : Entry) (c : Core S) → KeepsOption c (receive_vote execute from e c)
  unfolding receive_vote
  receive_vote-Keeps from e c = if_both (KeepsOption c) _ done (
      bind-Keeps (open_slot-Keeps e.slot c) (λ d.
        if_both (KeepsOption d) _ done
          (from-Keeps (update-Keeps e.slot _ d refl) (settle-Keeps e _))))

  receive_votes-Keeps :
      (from : ℤ) (es : List Entry) (c : Core S) → KeepsOption c (receive_votes execute from es c)
  unfolding receive_votes
  receive_votes-Keeps from [] c = done
  receive_votes-Keeps from (e ∷ es) c =
      bind-Keeps (receive_vote-Keeps from e c) (receive_votes-Keeps from es)

  -- A majority decides the plan.
  majority-Keeps :
      (plan : Entry) (c c' : Core S)
      → Keeps c c'
      → KeepsPair (Option Entry) c (do
        let value =
            if plan.value.noop then plan.value else get_or (find plan.value.id c.known) no_record
        let v : Entry = record plan { value = value; payload = true; decided = true }
        c'' ← learn execute v c'
        some (c'', some v))
  majority-Keeps plan c c' h =
      through (bind-KeepsPair (learn-Keeps execute _ c') (λ d. KeepsPair.keeps _ (Keeps-refl d)))
    where
      through :
          {o : Option (Core S × Option Entry)}
          → KeepsPair (Option Entry) c' o
          → KeepsPair (Option Entry) c o
      through KeepsPair.panics = KeepsPair.panics
      through (KeepsPair.keeps a k) = KeepsPair.keeps a (Keeps-trans h k)

  receive_accepted-Keeps :
      (from : ℤ) (epoch : ℕ) (e : Entry) (c : Core S)
      → KeepsPair (Option Entry) c (receive_accepted execute from epoch e c)
  unfolding receive_accepted
  receive_accepted-Keeps from epoch e c =
      go (if is_some (slot_at e.slot c).chosen then none else (slot_at e.slot c).proposed)
    where
      acked : Core S
      acked =
          put_slot e.slot (record (slot_at e.slot c) { acks = with (slot_at e.slot c).acks from }) c

      go :
          (o : Option Entry)
          → KeepsPair (Option Entry) c (elim o [
            | none ↦ some (c, none)
            | some plan ↦
                if not (plan.epoch == epoch)
                then some (c, none)
                else if ltb (size (with (slot_at e.slot c).acks from)) (c.n / 2 + 1)
                then some (acked, none)
                else do
                  let value =
                      if plan.value.noop
                      then plan.value
                      else get_or (find plan.value.id c.known) no_record
                  let v : Entry = record plan { value = value; payload = true; decided = true }
                  c'' ←
                      learn execute v
                        (record acked { classic_commits = count_up acked.classic_commits })
                  some (c'', some v)
          ])
      go none = KeepsPair.keeps none (Keeps-refl c)
      go (some plan) =
          if_both (KeepsPair (Option Entry) c) _ (KeepsPair.keeps none (Keeps-refl c)) (
            if_both (KeepsPair (Option Entry) c) _
              (KeepsPair.keeps none (update-Keeps e.slot _ c refl))
              (majority-Keeps plan c _ (
                Keeps-trans (update-Keeps e.slot _ c refl)
                  (same-Keeps _ _ refl refl (omega arith) refl refl refl))))

  receive_all_accepted-Keeps :
      (from : ℤ) (epoch : ℕ) (es : List Entry) (c : Core S)
      → KeepsPair (List Entry) c (receive_all_accepted execute from epoch es c)
  unfolding receive_all_accepted
  receive_all_accepted-Keeps from epoch [] c = KeepsPair.keeps [] (Keeps-refl c)
  receive_all_accepted-Keeps from epoch (e ∷ es) c =
      then-KeepsPair (receive_accepted-Keeps from epoch e c) (λ x.
        then-KeepsPair (receive_all_accepted-Keeps from epoch es x.0)
          (λ y. KeepsPair.keeps _ (Keeps-refl y.0)))

  accepted-Keeps : (m : Message) (c : Core S) → KeepsOption c (accepted execute m c)
  unfolding accepted
  accepted-Keeps m c = if_both (KeepsOption c) _ done (
      end-KeepsPair (receive_all_accepted-Keeps m.from m.epoch m.entries c)
        (λ x. KeepsOption.keeps (announce-Keeps Kind.commit 0 x.1 x.0)))

  learn_all-Keeps : (es : List Entry) (c : Core S) → KeepsOption c (learn_all execute es c)
  unfolding learn_all
  learn_all-Keeps [] c = done
  learn_all-Keeps (e ∷ es) c = bind-Keeps (learn-Keeps execute e c) (learn_all-Keeps es)

  receive_data-Keeps : (es : List Entry) (c : Core S) → KeepsOption c (receive_data execute es c)
  unfolding receive_data
  receive_data-Keeps es c = bind-Keeps (remember_all-Keeps es c) (λ d.
      bind-Keeps (cast_deferred-Keeps d.slots d) (λ d2. KeepsOption.keeps (apply-Keeps execute d2)))

  submit_all-Keeps : (es : List Entry) (c : Core S) → KeepsOption c (submit_all execute es c)
  unfolding submit_all
  submit_all-Keeps [] c = done
  submit_all-Keeps (e ∷ es) c =
      bind-Keeps (if_both (KeepsOption c) _ (submit-Keeps execute e.value c) done)
        (submit_all-Keeps es)

  dispatch-Keeps :
      (kind : Kind) (m : Message) (c : Core S) → KeepsOption c (dispatch execute kind m c)
  unfolding dispatch
  dispatch-Keeps Kind.vote m c =
      if_both (KeepsOption c) _ done (receive_votes-Keeps m.from m.entries c)
  dispatch-Keeps Kind.prepare m c = KeepsOption.keeps (prepare-Keeps m c)
  dispatch-Keeps Kind.promise m c = promise_page-Keeps m c
  dispatch-Keeps Kind.accept m c = accept-Keeps m c
  dispatch-Keeps Kind.accepted m c = accepted-Keeps m c
  dispatch-Keeps Kind.commit m c = learn_all-Keeps m.entries c
  dispatch-Keeps Kind.heartbeat m c = KeepsOption.keeps (heartbeat-Keeps m c)
  dispatch-Keeps Kind.fetch m c = KeepsOption.keeps (fetch-Keeps m c)
  dispatch-Keeps Kind.data_entries m c = receive_data-Keeps m.entries c
  dispatch-Keeps Kind.forward m c = if_both (KeepsOption c) _ done (submit_all-Keeps m.entries c)
  dispatch-Keeps Kind.nack m c = KeepsOption.keeps (supersede-Keeps m c)
  dispatch-Keeps Kind.recover m c =
      KeepsOption.keeps
        (if_both (Keeps c) _ (same-Keeps c _ refl refl (omega arith) refl refl refl) (Keeps-refl c))
  dispatch-Keeps Kind.unknown m c = done

  receive-Keeps : (m : Message) (c : Core S) → KeepsOption c (receive execute m c)
  unfolding receive
  receive-Keeps m c = if_both (KeepsOption c) _ done (
      from-Keeps (same-Keeps c _ refl refl (omega arith) refl refl refl)
        (dispatch-Keeps m.kind m _))

  pub step-Keeps : (event : Event) (c : Core S) → KeepsOption c (step execute event c)
  unfolding step
  step-Keeps (Event.proposed v) c = submit-Keeps execute v c
  step-Keeps (Event.received m) c = receive-Keeps m c
  step-Keeps (Event.ticked now) c = tick-Keeps now c
