-- ===== src/Paxos/Keeps/Receive.antt =====
-- The packets of `receive` of paxos/core.go.
use consensus_arena.Prelude.{ℕ, true, if_both, List, [], ◌∷◌, arith}
use consensus_arena.Prelude.Int.{int_eq, ℤ}
use consensus_arena.State.{Command, Value}
use consensus_arena.Paxos.Defs.{id_eq, Request, Record, Packet, Kind, Core}
use consensus_arena.Paxos.Normal.{submit}
use consensus_arena.Paxos.Recovery.{schedule_pending}
use consensus_arena.Paxos.Events.{
  submit_all, mark_committed, follow_higher, resume_active, install_committed, receive_ready,
  dispatch, receive_other, receive_kind, receive,
}
use consensus_arena.Paxos.Keeps.{
  Keeps, KeepsOption, Keeps-refl, Keeps-trans, bind-Keeps, from-Keeps, install-Keeps,
  request_fetch-Keeps, submit-Keeps,
}
use consensus_arena.Paxos.Keeps.Recovery.{
  promise_reply-Keeps, accept-Keeps, ack-Keeps, apply-Keeps, send_suffix-Keeps,
  receive_prepare-Keeps,
}

module _ {S : Type 0} (execute : Command → S → S × Value) where
  submit_all-Keeps : (rs : List Request) (c : Core S) → Keeps c (submit_all rs c)
  unfolding submit_all
  submit_all-Keeps [] c = Keeps-refl c
  submit_all-Keeps (r ∷ rs) c = Keeps-trans (submit-Keeps r c) (submit_all-Keeps rs (submit r c))

  mark_committed-Keeps : (slot : ℤ) (c : Core S) → Keeps c (mark_committed slot c)
  mark_committed-Keeps slot c = ground arith

  install_committed-Keeps : (rs : List Record) (c : Core S) → KeepsOption c (install_committed rs c)
  unfolding install_committed
  install_committed-Keeps [] c = KeepsOption.keeps (Keeps-refl c)
  install_committed-Keeps (r ∷ rs) c =
      bind-Keeps (install-Keeps r c)
        (λ d. from-Keeps (mark_committed-Keeps r.slot d) (install_committed-Keeps rs _))

  resume_active-Keeps : (p : Packet) (c : Core S) → Keeps c (resume_active p c)
  unfolding resume_active schedule_pending
  resume_active-Keeps p c = ground arith

  receive_ready-Keeps : (now : ℕ) (p : Packet) (c : Core S) → Keeps c (receive_ready now p c)
  unfolding receive_ready
  receive_ready-Keeps now p c = if_both (Keeps c) _ (Keeps-refl c) (
      Keeps-trans (resume_active-Keeps p c)
        (if_both (Keeps _) _ (request_fetch-Keeps now _) (Keeps-refl _)))

  dispatch-Keeps :
      (now : ℕ) (kind : Kind) (p : Packet) (c : Core S)
      → KeepsOption c (dispatch execute now kind p c)
  unfolding dispatch
  dispatch-Keeps now Kind.promise p c = promise_reply-Keeps execute now p c
  dispatch-Keeps now Kind.accept p c =
      if_both (KeepsOption c) _ (accept-Keeps execute now p c) (KeepsOption.keeps (Keeps-refl c))
  dispatch-Keeps now Kind.ack p c = KeepsOption.keeps (ack-Keeps execute p c)
  dispatch-Keeps now Kind.commit p c =
      if_both (KeepsOption c) _ (KeepsOption.keeps (Keeps-refl c)) (
        bind-Keeps (install_committed-Keeps p.records c)
          (λ d. KeepsOption.keeps (apply-Keeps execute d)))
  dispatch-Keeps now Kind.ready p c = KeepsOption.keeps (receive_ready-Keeps now p c)
  dispatch-Keeps now Kind.fetch p c =
      if_both (KeepsOption c) _ (send_suffix-Keeps execute now p.from p.floor true c)
        (KeepsOption.keeps (Keeps-refl c))
  dispatch-Keeps now Kind.forward p c =
      KeepsOption.keeps (if_both (Keeps c) _ (submit_all-Keeps p.requests c) (Keeps-refl c))
  dispatch-Keeps now Kind.prepare p c = KeepsOption.keeps (Keeps-refl c)
  dispatch-Keeps now Kind.unknown p c = KeepsOption.keeps (Keeps-refl c)

  -- A Ready is followed only upwards.
  follow_higher-Keeps : (p : Packet) (c : Core S) → Keeps c (follow_higher p c)
  unfolding follow_higher
  follow_higher-Keeps p c = ground arith

  receive_other-Keeps :
      (now : ℕ) (p : Packet) (c : Core S) → KeepsOption c (receive_other execute now p c)
  unfolding receive_other
  receive_other-Keeps now p c = if_both (KeepsOption c) _ (KeepsOption.keeps (Keeps-refl c)) (
      from-Keeps (follow_higher-Keeps p c) (
        if_both (KeepsOption _) _ (KeepsOption.keeps (Keeps-refl _))
          (dispatch-Keeps now p.kind p _)))

  receive_kind-Keeps :
      (now : ℕ) (kind : Kind) (p : Packet) (c : Core S)
      → KeepsOption c (receive_kind execute now kind p c)
  unfolding receive_kind
  receive_kind-Keeps now Kind.prepare p c = receive_prepare-Keeps execute now p c
  receive_kind-Keeps now _ p c = receive_other-Keeps now p c

  -- A packet of any kind and content either makes the replica panic, or leaves its identity and the
  -- number of replicas as they were, its ballot no lower, and every result it had recorded for a
  -- request unchanged.
  pub receive-Keeps : (now : ℕ) (p : Packet) (c : Core S) → KeepsOption c (receive execute now p c)
  unfolding receive
  receive-Keeps now p c = receive_kind-Keeps now p.kind p c
