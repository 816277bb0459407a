-- ===== src/Curp/Keeps.antt =====
-- What the steps of curp/core.go and curp/execute.go leave alone.
pub mod Proposals
pub mod Recovery
pub mod Receive
pub mod Tick
use consensus_arena.Prelude.{
  ℕ, zero, suc, ◌≡◌, refl, ◌∙◌, inl, inr, Bool, true, false, not, ◌||◌, if_both, List, [], ◌∷◌,
  Option, none, some, if◌then◌else◌, length, arith, Bool-cases, Option-cases,
}
use consensus_arena.Prelude.Int.{int_eq, ℤ, ◌≤ℤ◌, ◌==ℤ◌}
use consensus_arena.Prelude.Maps.{Map, find, find-put, put, delete}
use consensus_arena.State.{Command, Value}
use consensus_arena.Paxos.Defs.{
  RequestId, id_eq, id_beq_iff, Request, Record, Packet, Kind, next, ◌>>=◌,
}
use consensus_arena.Paxos.Normal.{vote_for}
use consensus_arena.Curp.Conflicts.{add, conflicts}
use consensus_arena.Curp.Defs.{Core, Output, emit, replied, answered_record}
use consensus_arena.Curp.Normal.{
  remove_old, add_old, witnessed, record_witness, is_recorded, admit, enqueue, submit, install,
  installed, request_fetch, apply_record, apply_loop, apply, count_vote, count_votes, is_gap,
  accept_record, accept_records, is_fast, reply_fast, propose_request, FlushStep, flush_step,
  flush_loop,
}

module _ {S : Type 0} where
  pub record Keeps (c c' : Core S) : Type 0 where
    pub n : c'.n ≡ c.n
    pub id : c'.id ≡ c.id
    pub ballot : c.ballot ≤ℤ c'.ballot
    pub values : (i : RequestId) (v : Value) → find i c.values ≡ some v → find i c'.values ≡ some v

  pub Keeps-refl : (c : Core S) → Keeps c c
  Keeps-refl c = record { n = refl; id = refl; ballot = omega arith; values = λ i v h. h }

  pub Keeps-trans : {a b c : Core S} → Keeps a b → Keeps b c → Keeps a c
  Keeps-trans p q = record {
    n = q.n ∙ p.n;
    id = q.id ∙ p.id;
    ballot = omega (arith, p.ballot, q.ballot);
    values = λ i v h. q.values i v (p.values i v h);
  }

  -- A handler keeps these wherever it does not panic.
  pub data KeepsOption (c : Core S) : Option (Core S) → Type 0 where
    panics : KeepsOption c none
    keeps : {d : Core S} → Keeps c d → KeepsOption c (some d)

  -- The same for the result of the loop of `accept`.
  pub data AcceptKeeps (c : Core S) : Option (Core S × Bool × List Record) → Type 0 where
    panics : AcceptKeeps c none
    keeps :
        {d : Core S} {gap : Bool} {accepted : List Record}
        → Keeps c d
        → AcceptKeeps c (some (d, gap, accepted))

  pub from-Keeps :
      {c d : Core S} {m : Option (Core S)} → Keeps c d → KeepsOption d m → KeepsOption c m
  from-Keeps h KeepsOption.panics = KeepsOption.panics
  from-Keeps h (KeepsOption.keeps k) = KeepsOption.keeps (Keeps-trans h k)

  pub bind-Keeps :
      {c : Core S} {m : Option (Core S)} {f : Core S → Option (Core S)}
      → KeepsOption c m
      → ((d : Core S) → KeepsOption d (f d))
      → KeepsOption c (m >>= f)
  bind-Keeps KeepsOption.panics k = KeepsOption.panics
  bind-Keeps (KeepsOption.keeps {d} h) k = from-Keeps h (k d)

  pub emit-Keeps : (o : Output) (c : Core S) → Keeps c (emit o c)
  emit-Keeps o c = ground arith

  pub enqueue-Keeps : (r : Request) (c : Core S) → Keeps c (enqueue r c)
  unfolding enqueue
  enqueue-Keeps r c = ground arith

  witnessed-Keeps : (r : Request) (b : Bool) (c : Core S) → Keeps c (witnessed r b c)
  witnessed-Keeps r b c = ground arith

  record_witness-Keeps : (r : Request) (c : Core S) → KeepsOption c (record_witness r c)
  unfolding record_witness
  record_witness-Keeps r c = go (conflicts r (remove_old (find r.id c.witness) c.witness_index))
    where
      tested : Core S
      tested = record c {
        witness_index =
            add_old (find r.id c.witness) (remove_old (find r.id c.witness) c.witness_index);
        recorded = put r.id c.ballot c.recorded;
      }

      go :
          (q : Option Bool)
          → KeepsOption c (
              q >>= λ conflicting. some (
                if c.id ==ℤ c.leader
                then witnessed r (not conflicting) tested
                else emit
                    (answered_record r (not conflicting))
                    (witnessed r (not conflicting) tested)))
      go none = KeepsOption.panics
      go (some b) = KeepsOption.keeps (ground arith)

  admit-Keeps : (r : Request) (c : Core S) → KeepsOption c (admit r c)
  admit-Keeps r c =
      bind-Keeps
        (if_both (KeepsOption c) _ (KeepsOption.keeps (Keeps-refl c)) (record_witness-Keeps r c))
        (λ d. KeepsOption.keeps (if_both (Keeps d) _ (enqueue-Keeps r d) (Keeps-refl d)))

  pub submit-Keeps : (r : Request) (c : Core S) → KeepsOption c (submit r c)
  unfolding submit
  submit-Keeps r c = go (find r.id c.values)
    where
      waiting : Core S
      waiting = record c { pending = put r.id r c.pending }

      go :
          (o : Option Value)
          → KeepsOption c (elim o [
            | some v ↦ some (emit (replied r v false) c)
            | none ↦ if not c.active then some waiting else admit r waiting
          ])
      go (some v) = KeepsOption.keeps (emit-Keeps _ c)
      go none = from-Keeps {d = waiting} (ground arith) (
          if_both (KeepsOption waiting) _ (KeepsOption.keeps (Keeps-refl waiting))
            (admit-Keeps r waiting))

  pub installed-Keeps : (r : Record) (c : Core S) → Keeps c (installed r c)
  unfolding installed
  installed-Keeps r c = ground arith

  pub install-Keeps : (r : Record) (c : Core S) → KeepsOption c (install r c)
  unfolding install
  install-Keeps r c = elim (Option-cases (find r.slot c.log)) [
    | inl e ↦ rw (e, install) (KeepsOption.keeps (installed-Keeps r c))
    | inr (old, e) ↦
        rw (e, install)
          (if_both (KeepsOption c) _
            (if_both (KeepsOption c) _ (KeepsOption.keeps (Keeps-refl c)) KeepsOption.panics)
            (KeepsOption.keeps (installed-Keeps r c)))
  ]

  pub request_fetch-Keeps : (now : ℕ) (c : Core S) → Keeps c (request_fetch now c)
  unfolding request_fetch
  request_fetch-Keeps now c = ground arith

  pub apply_record-values :
      (execute : Command → S → S × Value) (r : Record) (c : Core S) (i : RequestId) (v : Value)
      → find i c.values ≡ some v
      → find i (apply_record execute r c).values ≡ some v
  unfolding apply_record
  apply_record-values execute r c i v h =
      let w = (execute r.request.command c.store).1 in
      ground (arith, h, find-put r.request.id i w c.values, id_beq_iff r.request.id i)

  pub apply_record-Keeps :
      (execute : Command → S → S × Value) (r : Record) (c : Core S)
      → Keeps c (apply_record execute r c)
  unfolding apply_record
  apply_record-Keeps execute r c = record {
    n = ground arith;
    id = ground arith;
    ballot = ground arith;
    values = apply_record-values execute r c;
  }

  pub apply_loop-Keeps :
      (execute : Command → S → S × Value) (fuel : ℕ) (c : Core S)
      → Keeps c (apply_loop execute fuel c)
  unfolding apply_loop
  apply_loop-Keeps execute zero c = Keeps-refl c
  apply_loop-Keeps execute (suc fuel) c = elim (Option-cases (find (next c.executed) c.log)) [
    | inl e ↦ rw (e, apply_loop) (Keeps-refl c)
    | inr (r, e) ↦ elim (Bool-cases r.committed) [
      | inl y ↦
          rw (e, apply_loop, y)
            (Keeps-trans (apply_record-Keeps execute r c)
              (apply_loop-Keeps execute fuel (apply_record execute r c)))
      | inr n ↦ rw (e, apply_loop, n) (Keeps-refl c)
    ]
  ]

  pub count_vote-Keeps : (from : ℤ) (v : Record) (c : Core S) → Keeps c (count_vote from v c).0
  unfolding count_vote
  count_vote-Keeps from v c = ground arith

  pub count_votes-Keeps :
      (from : ℤ) (vs : List Record) (c : Core S) → Keeps c (count_votes from vs c).0
  unfolding count_votes
  count_votes-Keeps from [] c = Keeps-refl c
  count_votes-Keeps from (v ∷ vs) c =
      Keeps-trans (count_vote-Keeps from v c) (count_votes-Keeps from vs (count_vote from v c).0)

  pub accept_record-Keeps :
      (ballot : ℤ) (r : Record) (c : Core S) → KeepsOption c (accept_record ballot r c)
  unfolding accept_record
  accept_record-Keeps ballot r c =
      from-Keeps (if_both (Keeps c) (is_gap r c) (ground arith) (Keeps-refl c)) (install-Keeps _ _)

  pub bind-AcceptKeeps :
      {c : Core S} {m : Option (Core S)} {f : Core S → Option (Core S × Bool × List Record)}
      → KeepsOption c m
      → ((d : Core S) → AcceptKeeps d (f d))
      → AcceptKeeps c (m >>= f)
  bind-AcceptKeeps KeepsOption.panics k = AcceptKeeps.panics
  bind-AcceptKeeps (KeepsOption.keeps {d} h) k = go h (k d)
    where
      go :
          {a b : Core S} {t : Option (Core S × Bool × List Record)}
          → Keeps a b
          → AcceptKeeps b t
          → AcceptKeeps a t
      go h AcceptKeeps.panics = AcceptKeeps.panics
      go h (AcceptKeeps.keeps k) = AcceptKeeps.keeps (Keeps-trans h k)

  pub accept_records-Keeps :
      (ballot : ℤ) (rs : List Record) (c : Core S) → AcceptKeeps c (accept_records ballot rs c)
  unfolding accept_records
  accept_records-Keeps ballot [] c = AcceptKeeps.keeps (Keeps-refl c)
  accept_records-Keeps ballot (r ∷ rs) c =
      bind-AcceptKeeps (accept_record-Keeps ballot r c)
        (λ d. extended (accept_records-Keeps ballot rs d))
    where
      extended :
          {d : Core S} {m : Option (Core S × Bool × List Record)}
          → AcceptKeeps d m
          → AcceptKeeps d
              (m >>= λ rest. some (rest.0, is_gap r c || rest.1, vote_for r.slot ∷ rest.2))
      extended AcceptKeeps.panics = AcceptKeeps.panics
      extended (AcceptKeeps.keeps k) = AcceptKeeps.keeps k
