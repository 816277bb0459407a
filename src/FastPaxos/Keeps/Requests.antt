-- ===== src/FastPaxos/Keeps/Requests.antt =====
-- The answers of a replica: accepts, heartbeats and fetches of fastpaxos/core.go.
use consensus_arena.Prelude.{
  ℕ, zero, suc, refl, List, [], ◌∷◌, ◌++◌, Option, none, some, if◌then◌else◌, arith, if_both, ◌==◌,
  length,
}
use consensus_arena.Prelude.Int.{int_eq, ℤ}
use consensus_arena.Prelude.Maps.{Map}
use consensus_arena.Paxos.Defs.{id_eq, next}
use consensus_arena.FastPaxos.Defs.{Entry}
use consensus_arena.FastPaxos.Core.{
  Core, Slot, Kind, Message, message, slot_at, cast, page_length, send,
}
use consensus_arena.FastPaxos.Requests.{
  accept_entry, accept_entries, accept, heartbeat, fetch, decision_of, send_decisions,
  cast_deferred, supersede,
}
use consensus_arena.FastPaxos.Keeps.{
  Keeps, Keeps-refl, Keeps-trans, KeepsOption, KeepsPair, from-Keeps, bind-Keeps, bind-KeepsPair,
  then-KeepsPair, end-KeepsPair, done, same-Keeps, update-Keeps,
}
use consensus_arena.FastPaxos.Keeps.Normal.{open_slot-Keeps, send-Keeps, remember-Keeps, cast-Keeps}
use consensus_arena.FastPaxos.Keeps.Recovery.{adopt-Keeps}

module _ {S : Type 0} where
  accept_entry-Keeps : (epoch : ℕ) (e : Entry) (c : Core S) → KeepsOption c (accept_entry epoch e c)
  unfolding accept_entry
  accept_entry-Keeps epoch e c = if_both (KeepsOption c) _ done (
      bind-Keeps (remember-Keeps e.value c) (λ d. bind-Keeps (open_slot-Keeps e.slot d) (λ d2.
        if_both (KeepsOption d2) _ KeepsOption.panics
          (KeepsOption.keeps (update-Keeps e.slot _ d2 refl)))))

  accept_entries-Keeps :
      (epoch : ℕ) (es : List Entry) (c : Core S)
      → KeepsPair (List Entry) c (accept_entries epoch es c)
  unfolding accept_entries
  accept_entries-Keeps epoch [] c = KeepsPair.keeps [] (Keeps-refl c)
  accept_entries-Keeps epoch (e ∷ es) c = bind-KeepsPair (accept_entry-Keeps epoch e c) (λ d.
      then-KeepsPair (accept_entries-Keeps epoch es d) (λ x. KeepsPair.keeps _ (Keeps-refl x.0)))

  pub accept-Keeps : (m : Message) (c : Core S) → KeepsOption c (accept m c)
  unfolding accept
  accept-Keeps m c = if_both (KeepsOption c) _ done (
      if_both (KeepsOption c) _ (KeepsOption.keeps (send-Keeps m.from _ c)) (
        from-Keeps
          (Keeps-trans (adopt-Keeps m.epoch c)
            (same-Keeps _ _ refl refl (omega arith) refl refl refl))
          (end-KeepsPair (accept_entries-Keeps m.epoch m.entries _)
            (λ x. KeepsOption.keeps (send-Keeps m.from _ x.0)))))

  pub supersede-Keeps : (m : Message) (c : Core S) → Keeps c (supersede m c)
  supersede-Keeps m c = if_both (Keeps c) _ (adopt-Keeps m.epoch c) (Keeps-refl c)

  pub heartbeat-Keeps : (m : Message) (c : Core S) → Keeps c (heartbeat m c)
  unfolding heartbeat
  heartbeat-Keeps m c =
      Keeps-trans (supersede-Keeps m c) (if_both (Keeps _) _ (send-Keeps m.from _ _) (Keeps-refl _))

  send_decisions-Keeps :
      (k : ℕ) (s to : ℤ) (page : List Entry) (c : Core S) → Keeps c (send_decisions k s to page c)
  unfolding send_decisions
  send_decisions-Keeps zero s to page c = if_both (Keeps c) _ (Keeps-refl c) (send-Keeps to _ c)
  send_decisions-Keeps (suc k) s to page c =
      go (decision_of s c) (send_decisions-Keeps k (next s) to)
    where
      go :
          (o : Option Entry)
          → ((p : List Entry) (d : Core S) → Keeps d (send_decisions k (next s) to p d))
          → Keeps c (elim o [
            | none ↦ send_decisions k (next s) to page c
            | some e ↦
                let page' = page ++ e ∷ [] in
                if length page' == page_length
                then send_decisions k
                    (next s)
                    to
                    []
                    (send to (record (message Kind.commit) { entries = page' }) c)
                else send_decisions k (next s) to page' c
          ])
      go none ih = ih page c
      go (some e) ih = if_both (Keeps c) _ (Keeps-trans (send-Keeps to _ c) (ih [] _)) (ih _ c)

  pub fetch-Keeps : (m : Message) (c : Core S) → Keeps c (fetch m c)
  unfolding fetch
  fetch-Keeps m c =
      Keeps-trans (if_both (Keeps c) _ (Keeps-refl c) (send-Keeps m.from _ c))
        (if_both (Keeps _) _ (Keeps-refl _) (send_decisions-Keeps _ m.start m.from [] _))

  pub cast_deferred-Keeps :
      (slots : Map ℤ Slot) (c : Core S) → KeepsOption c (cast_deferred slots c)
  unfolding cast_deferred
  cast_deferred-Keeps [] c = done
  cast_deferred-Keeps ((s, st) ∷ slots) c =
      bind-Keeps (waited (slot_at s c).deferred) (cast_deferred-Keeps slots)
    where
      waited : (o : Option Entry) → KeepsOption c (elim o [ none ↦ some c | some e ↦ cast e c ])
      waited none = done
      waited (some e) = cast-Keeps e c
