-- ===== src/Paxos/Keeps.antt =====
-- What the steps of paxos/core.go and paxos/execute.go leave alone.
pub mod Recovery
pub mod Receive
use consensus_arena.Prelude.{
  ℕ, zero, suc, ◌≡◌, refl, ◌∙◌, inl, inr, Bool, true, false, ◌||◌, if_both, List, [], ◌∷◌, Option,
  none, some, if◌then◌else◌, length, arith, Bool-cases, Option-cases,
}
use consensus_arena.Prelude.Int.{int_eq, ℤ, ◌≤ℤ◌}
use consensus_arena.Prelude.Maps.{Map, find, find-put}
use consensus_arena.State.{Command, Value}
use consensus_arena.Paxos.Defs.{
  RequestId, id_eq, id_beq_iff, Request, Record, Packet, Kind, Core, Output, emit, next, ◌>>=◌,
}
use consensus_arena.Paxos.Normal.{
  enqueue, submit, install, installed, request_fetch, apply_record, apply_loop, apply, count_vote,
  count_votes, announce, ack, receive_ack, is_gap, vote_for, accept_record, accept_records,
  vote_back, accept, offer, FlushStep, stop, skip, propose, flush_step, flush_loop, flush,
}
use consensus_arena.Paxos.Recovery.{
  schedule_pending, activate, adopt_from, send_decided, send_page, send_pages, send_suffix, adopted,
  finish_recovery, adopt_promises, with_page, with_promise, promised, page_records, select_records,
  promise_reply, receive_promise, send_promises, promise, receive_prepare,
}
use consensus_arena.Paxos.Events.{
  submit_all, mark_committed, follow_higher, resume_active, install_committed, receive_ready,
  dispatch, receive_other, receive_kind, receive,
}

module _ {S : Type 0} where
  pub record Keeps (c c' : Core S) : Type 0 where
    pub n : c'.n ≡ c.n
    pub id : c'.id ≡ c.id
    pub ballot : c.ballot ≤ℤ c'.ballot
    pub values : (i : RequestId) (v : Value) → find i c.values ≡ some v → find i c'.values ≡ some v

  pub Keeps-refl : (c : Core S) → Keeps c c
  Keeps-refl c = record { n = refl; id = refl; ballot = omega arith; values = λ i v h. h }

  pub Keeps-trans : {a b c : Core S} → Keeps a b → Keeps b c → Keeps a c
  Keeps-trans p q = record {
    n = q.n ∙ p.n;
    id = q.id ∙ p.id;
    ballot = omega (arith, p.ballot, q.ballot);
    values = λ i v h. q.values i v (p.values i v h);
  }

  -- A handler keeps these wherever it does not panic.
  pub data KeepsOption (c : Core S) : Option (Core S) → Type 0 where
    panics : KeepsOption c none
    keeps : {d : Core S} → Keeps c d → KeepsOption c (some d)

  -- The same for the result of the loop of `accept`.
  pub data AcceptKeeps (c : Core S) : Option (Core S × Bool × List Record) → Type 0 where
    panics : AcceptKeeps c none
    keeps :
        {d : Core S} {gap : Bool} {accepted : List Record}
        → Keeps c d
        → AcceptKeeps c (some (d, gap, accepted))

  pub from-Keeps :
      {c d : Core S} {m : Option (Core S)} → Keeps c d → KeepsOption d m → KeepsOption c m
  from-Keeps h KeepsOption.panics = KeepsOption.panics
  from-Keeps h (KeepsOption.keeps k) = KeepsOption.keeps (Keeps-trans h k)

  pub bind-Keeps :
      {c : Core S} {m : Option (Core S)} {f : Core S → Option (Core S)}
      → KeepsOption c m
      → ((d : Core S) → KeepsOption d (f d))
      → KeepsOption c (m >>= f)
  bind-Keeps KeepsOption.panics k = KeepsOption.panics
  bind-Keeps (KeepsOption.keeps {d} h) k = from-Keeps h (k d)

  pub emit-Keeps : (o : Output) (c : Core S) → Keeps c (emit o c)
  emit-Keeps o c = ground arith

  pub enqueue-Keeps : (r : Request) (c : Core S) → Keeps c (enqueue r c)
  unfolding enqueue
  enqueue-Keeps r c = ground arith

  pub submit-Keeps : (r : Request) (c : Core S) → Keeps c (submit r c)
  unfolding submit enqueue
  submit-Keeps r c = ground arith

  pub installed-Keeps : (r : Record) (c : Core S) → Keeps c (installed r c)
  unfolding installed
  installed-Keeps r c = ground arith

  pub install-Keeps : (r : Record) (c : Core S) → KeepsOption c (install r c)
  unfolding install
  install-Keeps r c = elim (Option-cases (find r.slot c.log)) [
    | inl e ↦ rw (e, install) (KeepsOption.keeps (installed-Keeps r c))
    | inr (old, e) ↦
        rw (e, install)
          (if_both (KeepsOption c) _
            (if_both (KeepsOption c) _ (KeepsOption.keeps (Keeps-refl c)) KeepsOption.panics)
            (KeepsOption.keeps (installed-Keeps r c)))
  ]

  pub request_fetch-Keeps : (now : ℕ) (c : Core S) → Keeps c (request_fetch now c)
  unfolding request_fetch
  request_fetch-Keeps now c = ground arith

  pub apply_record-values :
      (execute : Command → S → S × Value) (r : Record) (c : Core S) (i : RequestId) (v : Value)
      → find i c.values ≡ some v
      → find i (apply_record execute r c).values ≡ some v
  unfolding apply_record
  apply_record-values execute r c i v h =
      let w = (execute r.request.command c.store).1 in
      ground (arith, h, find-put r.request.id i w c.values, id_beq_iff r.request.id i)

  pub apply_record-Keeps :
      (execute : Command → S → S × Value) (r : Record) (c : Core S)
      → Keeps c (apply_record execute r c)
  unfolding apply_record
  apply_record-Keeps execute r c = record {
    n = ground arith;
    id = ground arith;
    ballot = ground arith;
    values = apply_record-values execute r c;
  }

  pub apply_loop-Keeps :
      (execute : Command → S → S × Value) (fuel : ℕ) (c : Core S)
      → Keeps c (apply_loop execute fuel c)
  unfolding apply_loop
  apply_loop-Keeps execute zero c = Keeps-refl c
  apply_loop-Keeps execute (suc fuel) c = elim (Option-cases (find (next c.executed) c.log)) [
    | inl e ↦ rw (e, apply_loop) (Keeps-refl c)
    | inr (r, e) ↦ elim (Bool-cases r.committed) [
      | inl y ↦
          rw (e, apply_loop, y)
            (Keeps-trans (apply_record-Keeps execute r c)
              (apply_loop-Keeps execute fuel (apply_record execute r c)))
      | inr n ↦ rw (e, apply_loop, n) (Keeps-refl c)
    ]
  ]

  pub count_vote-Keeps : (from : ℤ) (v : Record) (c : Core S) → Keeps c (count_vote from v c).0
  unfolding count_vote
  count_vote-Keeps from v c = ground arith

  pub count_votes-Keeps :
      (from : ℤ) (vs : List Record) (c : Core S) → Keeps c (count_votes from vs c).0
  unfolding count_votes
  count_votes-Keeps from [] c = Keeps-refl c
  count_votes-Keeps from (v ∷ vs) c =
      Keeps-trans (count_vote-Keeps from v c) (count_votes-Keeps from vs (count_vote from v c).0)

  abbrev FlushKeeps : Core S → FlushStep S → Type 0
  FlushKeeps c stop = Unit
  FlushKeeps c (skip c') = Keeps c c'
  FlushKeeps c (propose r c') = Keeps c c'

  pub flush_step-Keeps :
      (id : RequestId) (queue : List RequestId) (c : Core S) → FlushKeeps c (flush_step id queue c)
  unfolding flush_step
  flush_step-Keeps id queue c = ground arith

  pub flush_loop-Keeps :
      (queue : List RequestId) (room : ℕ) (c : Core S) → Keeps c (flush_loop queue room c).0
  unfolding flush_loop
  flush_loop-Keeps [] room c = Keeps-refl c
  flush_loop-Keeps (id ∷ queue) zero c = Keeps-refl c
  flush_loop-Keeps (id ∷ queue) (suc room) c =
      go (flush_step id queue c) (flush_step-Keeps id queue c) (flush_loop-Keeps queue)
    where
      go :
          (f : FlushStep S)
          → FlushKeeps c f
          → ((room : ℕ) (d : Core S) → Keeps d (flush_loop queue room d).0)
          → Keeps c (
              let out : Core S × List Record = elim f [
                | stop ↦ (c, [])
                | skip c' ↦ flush_loop queue (suc room) c'
                | propose rec c' ↦ let rest = flush_loop queue room c' in (rest.0, rec ∷ rest.1)
              ] in
              out.0)
      go stop k ih = Keeps-refl c
      go (skip d) k ih = Keeps-trans k (ih (suc room) d)
      go (propose r d) k ih = Keeps-trans k (ih room d)

  pub adopt_from-Keeps :
      (k : ℕ) (slot : ℤ) (selected : Map ℤ Record) (c : Core S)
      → Keeps c (adopt_from k slot selected c)
  unfolding adopt_from
  adopt_from-Keeps zero slot selected c = Keeps-refl c
  adopt_from-Keeps (suc k) slot selected c =
      let rest = adopt_from-Keeps k _ selected _ in
      record { n = rest.n; id = rest.id; ballot = rest.ballot; values = rest.values }

  pub accept_record-Keeps :
      (ballot : ℤ) (r : Record) (c : Core S) → KeepsOption c (accept_record ballot r c)
  unfolding accept_record
  accept_record-Keeps ballot r c =
      from-Keeps (if_both (Keeps c) (is_gap r c) (ground arith) (Keeps-refl c)) (install-Keeps _ _)

  pub bind-AcceptKeeps :
      {c : Core S} {m : Option (Core S)} {f : Core S → Option (Core S × Bool × List Record)}
      → KeepsOption c m
      → ((d : Core S) → AcceptKeeps d (f d))
      → AcceptKeeps c (m >>= f)
  bind-AcceptKeeps KeepsOption.panics k = AcceptKeeps.panics
  bind-AcceptKeeps (KeepsOption.keeps {d} h) k = go h (k d)
    where
      go :
          {a b : Core S} {t : Option (Core S × Bool × List Record)}
          → Keeps a b
          → AcceptKeeps b t
          → AcceptKeeps a t
      go h AcceptKeeps.panics = AcceptKeeps.panics
      go h (AcceptKeeps.keeps k) = AcceptKeeps.keeps (Keeps-trans h k)

  pub accept_records-Keeps :
      (ballot : ℤ) (rs : List Record) (c : Core S) → AcceptKeeps c (accept_records ballot rs c)
  unfolding accept_records
  accept_records-Keeps ballot [] c = AcceptKeeps.keeps (Keeps-refl c)
  accept_records-Keeps ballot (r ∷ rs) c =
      bind-AcceptKeeps (accept_record-Keeps ballot r c)
        (λ d. extended (accept_records-Keeps ballot rs d))
    where
      extended :
          {d : Core S} {m : Option (Core S × Bool × List Record)}
          → AcceptKeeps d m
          → AcceptKeeps d
              (m >>= λ rest. some (rest.0, is_gap r c || rest.1, vote_for r.slot ∷ rest.2))
      extended AcceptKeeps.panics = AcceptKeeps.panics
      extended (AcceptKeeps.keeps k) = AcceptKeeps.keeps k
