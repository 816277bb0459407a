-- ===== src/Curp/Keeps/Recovery.antt =====
-- Acceptance, repair and elections: curp/core.go and curp/recovery.go.
use consensus_arena.Prelude.{
  ℕ, zero, suc, Bool, false, if_both, List, [], ◌∷◌, Option, some, get_or, if◌then◌else◌, length,
  arith,
}
use consensus_arena.Prelude.Int.{int_eq, ℤ}
use consensus_arena.Prelude.Maps.{Map, find}
use consensus_arena.State.{Command, Value}
use consensus_arena.ReplicaSet.{Set}
use consensus_arena.Paxos.Defs.{RequestId, id_eq, Request, Record, Packet, ◌>>=◌}
use consensus_arena.Paxos.Recovery.{page_records, select_records, filler}
use consensus_arena.Curp.Defs.{Core}
use consensus_arena.Curp.Normal.{
  request_fetch, apply, count_votes, announce, ack, vote_back, accept, offer, flush,
}
use consensus_arena.Curp.Recovery.{
  schedule_pending, activate, place, adopt_from, restore_request, restore_requests, send_decided,
  send_page, send_pages, send_suffix, adopted, finish_recovery, adopt_promises, with_page,
  with_promise, promised, promise_reply, receive_promise, send_promises, promise, receive_prepare,
}
use consensus_arena.Curp.Keeps.{
  Keeps, KeepsOption, AcceptKeeps, Keeps-refl, Keeps-trans, accept_records-Keeps, apply_loop-Keeps,
  bind-Keeps, count_votes-Keeps, emit-Keeps, from-Keeps, request_fetch-Keeps,
}
use consensus_arena.Curp.Keeps.Proposals.{LoopKeeps, flush_loop-Keeps}

module _ {S : Type 0} where
  place-Keeps : (slot : ℤ) (r : Record) (c : Core S) → Keeps c (place slot r c)
  place-Keeps slot r c = ground arith

  adopt_from-Keeps :
      (k : ℕ) (slot : ℤ) (selected : Map ℤ Record) (c : Core S)
      → Keeps c (adopt_from k slot selected c)
  unfolding adopt_from
  adopt_from-Keeps zero slot selected c = Keeps-refl c
  adopt_from-Keeps (suc k) slot selected c =
      Keeps-trans (place-Keeps slot (get_or (find slot selected) (filler slot)) c)
        (adopt_from-Keeps k _ selected _)

  restore_request-Keeps :
      (r : Request) (reporters : Set) (c : Core S) → Keeps c (restore_request r reporters c)
  restore_request-Keeps r reporters c = ground arith

  restore_requests-Keeps :
      (rs : List Request) (reporters : Map RequestId Set) (c : Core S)
      → Keeps c (restore_requests rs reporters c)
  unfolding restore_requests
  restore_requests-Keeps [] reporters c = Keeps-refl c
  restore_requests-Keeps (r ∷ rs) reporters c =
      Keeps-trans (restore_request-Keeps r _ c) (restore_requests-Keeps rs reporters _)

module _ {S : Type 0} (execute : Command → S → S × Value) where
  announce-Keeps : (rs : List Record) (c : Core S) → Keeps c (announce rs c)
  unfolding announce
  announce-Keeps [] c = Keeps-refl c
  announce-Keeps (r ∷ rs) c = if_both (Keeps c) _ (emit-Keeps _ c) (Keeps-refl c)

  pub apply-Keeps : (c : Core S) → Keeps c (apply execute c)
  unfolding apply
  apply-Keeps c = apply_loop-Keeps execute (suc (length c.log)) c

  pub ack-Keeps : (p : Packet) (c : Core S) → Keeps c (ack execute p c)
  unfolding ack
  ack-Keeps p c =
      let (c', committed) = count_votes p.from p.records c in
      if_both (Keeps c) _ (Keeps-refl c) (
        Keeps-trans (count_votes-Keeps p.from p.records c)
          (Keeps-trans (announce-Keeps committed c') (apply-Keeps _)))

  vote_back-Keeps : (rs : List Record) (c : Core S) → Keeps c (vote_back execute rs c)
  unfolding vote_back
  vote_back-Keeps [] c = Keeps-refl c
  vote_back-Keeps (r ∷ rs) c = Keeps-trans (emit-Keeps _ c) (ack-Keeps _ _)

  pub accept-Keeps : (now : ℕ) (p : Packet) (c : Core S) → KeepsOption c (accept execute now p c)
  unfolding accept
  accept-Keeps now p c = go (accept_records-Keeps p.ballot p.records c)
    where
      go :
          {m : Option (Core S × Bool × List Record)}
          → AcceptKeeps c m
          → KeepsOption c (
              m >>= λ rest.
              some (vote_back execute rest.2 (if rest.1 then request_fetch now rest.0 else rest.0)))
      go AcceptKeeps.panics = KeepsOption.panics
      go (AcceptKeeps.keeps {d} {gap} {accepted} k) = KeepsOption.keeps (
          Keeps-trans k (
            Keeps-trans (if_both (Keeps d) gap (request_fetch-Keeps now d) (Keeps-refl d))
              (vote_back-Keeps accepted _)))

  offer-Keeps : (now : ℕ) (rs : List Record) (c : Core S) → KeepsOption c (offer execute now rs c)
  unfolding offer
  offer-Keeps now [] c = KeepsOption.keeps (Keeps-refl c)
  offer-Keeps now (r ∷ rs) c = from-Keeps (emit-Keeps _ c) (accept-Keeps now _ _)

  pub flush-Keeps : (now : ℕ) (c : Core S) → KeepsOption c (flush execute now c)
  unfolding flush
  flush-Keeps now c =
      if_both (KeepsOption c) _ (KeepsOption.keeps (Keeps-refl c))
        (go (flush_loop-Keeps execute c.queue 128 c))
    where
      go :
          {o : Option (Core S × List Record)}
          → LoopKeeps c o
          → KeepsOption c (o >>= λ rest. offer execute now rest.1 rest.0)
      go LoopKeeps.panics = KeepsOption.panics
      go (LoopKeeps.keeps {d} rs h) = from-Keeps h (offer-Keeps now rs d)

  send_decided-Keeps : (to : ℤ) (rs : List Record) (c : Core S) → Keeps c (send_decided to rs c)
  unfolding send_decided
  send_decided-Keeps to [] c = Keeps-refl c
  send_decided-Keeps to (r ∷ rs) c = emit-Keeps _ c

  send_page-Keeps :
      (now : ℕ) (to : ℤ) (recs : List Record) (fetch : Bool) (c : Core S)
      → KeepsOption c (send_page execute now to recs fetch c)
  unfolding send_page
  send_page-Keeps now to recs fetch c =
      if_both (KeepsOption c) _
        (KeepsOption.keeps (Keeps-trans (emit-Keeps _ c) (send_decided-Keeps to _ _)))
        (from-Keeps (emit-Keeps _ c) (accept-Keeps now _ _))

  send_pages-Keeps :
      (now k : ℕ) (to lo end : ℤ) (fetch : Bool) (c : Core S)
      → KeepsOption c (send_pages execute now k to lo end fetch c)
  unfolding send_pages
  send_pages-Keeps now zero to lo end fetch c = KeepsOption.keeps (Keeps-refl c)
  send_pages-Keeps now (suc k) to lo end fetch c =
      bind-Keeps
        (if_both (KeepsOption c) _ (send_page-Keeps now to _ fetch c)
          (KeepsOption.keeps (Keeps-refl c)))
        (send_pages-Keeps now k to _ end fetch)

  pub send_suffix-Keeps :
      (now : ℕ) (to start : ℤ) (fetch : Bool) (c : Core S)
      → KeepsOption c (send_suffix execute now to start fetch c)
  unfolding send_suffix
  send_suffix-Keeps now to start fetch c = send_pages-Keeps now _ to start _ fetch c

  pub activate-Keeps : (c : Core S) → Keeps c (activate c)
  unfolding activate schedule_pending
  activate-Keeps c = ground arith

  adopted-Keeps : (c : Core S) → Keeps c (adopted c)
  unfolding adopted
  adopted-Keeps c =
      let first = adopt_from-Keeps _ _ (select_records (page_records (promised c)) []) _ in
      let rest = Keeps-trans first (restore_requests-Keeps _ _ _) in
      record { n = rest.n; id = rest.id; ballot = rest.ballot; values = rest.values }

  finish_recovery-Keeps : (c : Core S) → Keeps c (finish_recovery execute c)
  unfolding finish_recovery
  finish_recovery-Keeps c = if_both (Keeps c) _ (activate-Keeps c) (Keeps-refl c)

  adopt_promises-Keeps : (now : ℕ) (c : Core S) → KeepsOption c (adopt_promises execute now c)
  unfolding adopt_promises
  adopt_promises-Keeps now c = from-Keeps (adopted-Keeps c) (
      bind-Keeps (send_suffix-Keeps now _ _ false _)
        (λ d. KeepsOption.keeps (finish_recovery-Keeps d)))

  with_page-Keeps : (p : Packet) (c : Core S) → Keeps c (with_page p c)
  unfolding with_page
  with_page-Keeps p c = ground arith

  with_promise-Keeps : (p : Packet) (c : Core S) → Keeps c (with_promise p c)
  unfolding with_promise
  with_promise-Keeps p c = ground arith

  pub promise_reply-Keeps :
      (now : ℕ) (p : Packet) (c : Core S) → KeepsOption c (promise_reply execute now p c)
  unfolding promise_reply
  promise_reply-Keeps now p c = if_both (KeepsOption c) _ (KeepsOption.keeps (Keeps-refl c)) (
      if_both (KeepsOption c) _ (KeepsOption.keeps (with_page-Keeps p c)) (
        if_both (KeepsOption c) _ (KeepsOption.keeps (with_promise-Keeps p c))
          (from-Keeps (with_promise-Keeps p c) (adopt_promises-Keeps now _))))

  receive_promise-Keeps :
      (now : ℕ) (p : Packet) (c : Core S) → KeepsOption c (receive_promise execute now p c)
  unfolding receive_promise
  receive_promise-Keeps now p c =
      if_both (KeepsOption c) _ (KeepsOption.keeps (Keeps-refl c)) (promise_reply-Keeps now p c)

  send_promises-Keeps :
      (now : ℕ) (to : ℤ) (ps : List Packet) (c : Core S)
      → KeepsOption c (send_promises execute now to ps c)
  unfolding send_promises
  send_promises-Keeps now to [] c = KeepsOption.keeps (Keeps-refl c)
  send_promises-Keeps now to (p ∷ ps) c =
      bind-Keeps
        (if_both (KeepsOption c) _ (receive_promise-Keeps now p c)
          (KeepsOption.keeps (emit-Keeps _ c)))
        (send_promises-Keeps now to ps)

  promise-Keeps : (now : ℕ) (p : Packet) (c : Core S) → KeepsOption c (promise execute now p c)
  unfolding promise
  promise-Keeps now p c = send_promises-Keeps now _ _ c

  pub receive_prepare-Keeps :
      (now : ℕ) (p : Packet) (c : Core S) → KeepsOption c (receive_prepare execute now p c)
  unfolding receive_prepare
  receive_prepare-Keeps now p c = if_both (KeepsOption c) _ (KeepsOption.keeps (Keeps-refl c)) (
      if_both (KeepsOption c) _ (KeepsOption.keeps (Keeps-refl c))
        (from-Keeps (ground arith) (promise-Keeps now p _)))
