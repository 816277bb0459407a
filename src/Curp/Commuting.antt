-- ===== src/Curp/Commuting.antt =====
-- The witness records of a CURP replica commute: `submit` of curp/core.go and `apply` of
-- curp/execute.go.
use mathlib.Core.List.{Memᴰ}
use consensus_arena.Prelude.{
  ℕ, zero, suc, ◌≡◌, ◌<◌, refl, sym, ap, subst, ◌∙◌, Bool, true, false, not, [], Option, none, some,
  if◌then◌else◌, length, arith, Bool-cases, inl, inr, is_some, get_or, if_both,
}
use consensus_arena.Prelude.Int.{int_eq, ℤ, int_max, ◌==ℤ◌}
use consensus_arena.Prelude.Maps.{Map, find, put, delete, find-put, find-delete}
use consensus_arena.State.{Command, Value, conflict}
use consensus_arena.Paxos.Defs.{RequestId, id_beq, id_beq_iff, id_eq, Request, Record, next, ◌>>=◌}
use consensus_arena.Curp.Conflicts.{ConflictIndex, add, remove, conflicts}
use consensus_arena.Curp.Witness.{no_witness, same_find, Witnessed, IsReal, added, deleted, readded}
use consensus_arena.Curp.Defs.{Core, emit, answered_record, replied, new_core}
use consensus_arena.Curp.Normal.{
  remove_old, add_old, witnessed, record_witness, is_recorded, enqueue, admit, submit, apply_record,
  apply_loop, apply,
}

-- A request comes with the command that it came with before.
abbrev IsSame : {S : Type 0} → Request → Core S → Type 0
IsSame r c = (old : Request) → find r.id c.witness ≡ some old → old ≡ r

more :
    {k : ℕ} {w : Map RequestId Request} {x : ConflictIndex}
    → Witnessed k w x
    → Witnessed (suc k) w x
more h = record {
  requests = h.requests;
  bound = omega (arith, h.bound);
  indexes = h.indexes;
  listed = h.listed;
  found = h.found;
  counts = h.counts;
  commute = h.commute;
}

module _ {S : Type 0} where
  -- The witness records of a core, of which there are at most k.
  abbrev WitnessOk : ℕ → Core S → Type 0
  WitnessOk k c = Witnessed k c.witness c.witness_index

  same_fields :
      {k : ℕ} {w : Map RequestId Request} {x : ConflictIndex} (d : Core S)
      → Witnessed k w x
      → d.witness ≡ w
      → d.witness_index ≡ x
      → WitnessOk k d
  same_fields {k} {w} {x} d h e e' =
      subst (λ (u : Map RequestId Request). Witnessed k u d.witness_index) (sym e)
        (subst (λ (y : ConflictIndex). Witnessed k w y) (sym e') h)

  data Kept (k : ℕ) : Option (Core S) → Type 0 where
    panics : Kept k none
    kept : {d : Core S} → WitnessOk k d → Kept k (some d)

  Kept-some : {k : ℕ} (d : Core S) {o : Option (Core S)} → Kept k o → o ≡ some d → WitnessOk k d
  Kept-some d Kept.panics e = ground (arith, e)
  Kept-some {k} d (Kept.kept h) e =
      subst (WitnessOk k) (ap (λ (o : Option (Core S)). get_or o d) e) h

  module _ (r : Request) (c : Core S) (k : ℕ) (h : WitnessOk k c) (same : IsSame r c)
      (room : suc k < int_max) where
    own_put :
        (x : Request)
        → find r.id c.witness ≡ some x
        → (id : RequestId) → find id (put r.id r c.witness) ≡ find id c.witness
    own_put x e id = elim (Bool-cases (id_beq r.id id)) [
      | inl own ↦
          ground (arith, find-put r.id id r c.witness, own)
          ∙ ap some (sym (same x e))
          ∙ sym e
          ∙ ap (λ (i : RequestId). find i c.witness) ((id_beq_iff r.id id).0 own)
      | inr other ↦ ground (arith, find-put r.id id r c.witness, other)
    ]

    -- What the test of `record_witness` leaves.
    abbrev tested : Option Request → Core S
    tested o = record c {
      witness_index = add_old o (remove_old o c.witness_index);
      recorded = put r.id c.ballot c.recorded;
    }

    witnessed-Ok :
        (o : Option Request) (b : Bool)
        → find r.id c.witness ≡ o
        → conflicts r (remove_old o c.witness_index) ≡ some b
        → WitnessOk (suc k) (witnessed r (not b) (tested o))
    witnessed-Ok none true e q = more h
    witnessed-Ok none false e q =
        subst
          (λ (o : Option Request).
            Witnessed (suc k) (put r.id r c.witness)
              (if is_some o then c.witness_index else add r c.witness_index))
          (sym e) (added r h room e q)
    witnessed-Ok (some old) b e q =
        subst (λ (u : Request). WitnessOk (suc k) (witnessed r (not b) (tested (some u))))
          (sym (same old e)) (own_record b)
      where
        member : Memᴰ r h.requests
        member = subst (λ (u : Request). Memᴰ u h.requests) (same old e) (h.found r.id old e).0

        own_record : (b : Bool) → WitnessOk (suc k) (witnessed r (not b) (tested (some r)))
        own_record true = readded r h room member (λ id. refl)
        own_record false =
            subst
              (λ (o : Option Request). Witnessed (suc k) (put r.id r c.witness) (
                if is_some o
                then add r (remove r c.witness_index)
                else add r (add r (remove r c.witness_index))))
              (sym e) (readded r h room member (own_put old e))

    record_witness-Kept : Kept (suc k) (record_witness r c)
    unfolding record_witness
    record_witness-Kept =
        go (find r.id c.witness) refl
          (conflicts r (remove_old (find r.id c.witness) c.witness_index)) refl
      where
        go :
            (o : Option Request)
            → find r.id c.witness ≡ o
            → (q : Option Bool) → conflicts r (remove_old o c.witness_index) ≡ q
            → Kept (suc k) (
                q >>= λ conflicting. some (
                  if c.id ==ℤ c.leader
                  then witnessed r (not conflicting) (tested o)
                  else emit
                      (answered_record r (not conflicting))
                      (witnessed r (not conflicting) (tested o))))
        go o e none eq = Kept.panics
        go o e (some b) eq =
            Kept.kept
              (if_both (WitnessOk (suc k)) _ (witnessed-Ok o b e eq) (witnessed-Ok o b e eq))

  enqueue-Ok : (r : Request) (k : ℕ) (c : Core S) → WitnessOk k c → WitnessOk k (enqueue r c)
  unfolding enqueue
  enqueue-Ok r k c h = same_fields (enqueue r c) h (ground arith) (ground arith)

  admit-Kept :
      (r : Request) (c : Core S) (k : ℕ)
      → WitnessOk k c
      → IsSame r c
      → suc k < int_max
      → Kept (suc k) (admit r c)
  admit-Kept r c k h same room = queued (
      if_both (Kept (suc k)) (is_recorded r c) (Kept.kept (more h))
        (record_witness-Kept r c k h same room))
    where
      queued :
          {o : Option (Core S)}
          → Kept (suc k) o
          → Kept (suc k) (o >>= λ c'. some (if c'.leader ==ℤ c'.id then enqueue r c' else c'))
      queued Kept.panics = Kept.panics
      queued (Kept.kept {d} g) =
          Kept.kept (if_both (WitnessOk (suc k)) _ (enqueue-Ok r (suc k) d g) g)

  submit-Kept :
      (r : Request) (c : Core S) (k : ℕ)
      → WitnessOk k c
      → IsSame r c
      → suc k < int_max
      → Kept (suc k) (submit r c)
  unfolding submit
  submit-Kept r c k h same room = go (find r.id c.values)
    where
      go :
          (o : Option Value)
          → Kept (suc k) (elim o [
            | some v ↦ some (emit (replied r v false) c)
            | none ↦
                let c' : Core S = record c { pending = put r.id r c.pending } in
                if not c.active then some c' else admit r c'
          ])
      go (some v) = Kept.kept (more h)
      go none = if_both (Kept (suc k)) _ (Kept.kept (more h)) (admit-Kept r _ k h same room)

module _ {S : Type 0} (execute : Command → S → S × Value) where
  apply_record-Ok :
      (k : ℕ) (r : Record) (c : Core S) → WitnessOk k c → WitnessOk k (apply_record execute r c)
  unfolding apply_record
  apply_record-Ok k r c h =
      same_fields (apply_record execute r c) (left (find r.request.id c.witness) refl)
        (ground arith) (ground arith)
    where
      left :
          (o : Option Request)
          → find r.request.id c.witness ≡ o
          → Witnessed k (delete r.request.id c.witness) (remove_old o c.witness_index)
      left none e = same_find h (λ id.
          ground (arith, e, find-delete r.request.id id c.witness, id_beq_iff r.request.id id))
      left (some w) e =
          subst (λ (i : RequestId). Witnessed k (delete i c.witness) (remove w c.witness_index))
            (h.found r.request.id w e).1 (deleted w h (h.found r.request.id w e).0)

  apply_loop-Ok :
      (k fuel : ℕ) (c : Core S) → WitnessOk k c → WitnessOk k (apply_loop execute fuel c)
  unfolding apply_loop
  apply_loop-Ok k zero c h = h
  apply_loop-Ok k (suc fuel) c h = go (find (next c.executed) c.log) (apply_loop-Ok k fuel)
    where
      go :
          (o : Option Record)
          → ((d : Core S) → WitnessOk k d → WitnessOk k (apply_loop execute fuel d))
          → WitnessOk k (elim o [
            | none ↦ c
            | some r ↦ elim r.committed [
              | false ↦ c
              | true ↦ apply_loop execute fuel (apply_record execute r c)
            ]
          ])
      go none ih = h
      go (some r) ih = elim (Bool-cases r.committed) [
        | inl y ↦ rw y (ih _ (apply_record-Ok k r c h))
        | inr n ↦ rw n h
      ]

  apply-Ok : (k : ℕ) (c : Core S) → WitnessOk k c → WitnessOk k (apply execute c)
  unfolding apply
  apply-Ok k c h = apply_loop-Ok k (suc (length c.log)) c h

  -- The states that a new core reaches by k submissions, by executions, and by whatever leaves the
  -- witness records and their index alone. A request comes with the same command each time.
  pub data Runs : ℕ → Core S → Type 0 where
    started :
        {c : Core S} (n : ℕ) (id leader : ℤ) (store : S)
        → new_core n id leader store ≡ some c
        → Runs 0 c
    submitted :
        {k : ℕ} {c d : Core S} (r : Request)
        → Runs k c
        → IsSame r c
        → submit r c ≡ some d
        → Runs (suc k) d
    executed : {k : ℕ} {c : Core S} → Runs k c → Runs k (apply execute c)
    elsewhere :
        {k : ℕ} {c d : Core S}
        → Runs k c
        → d.witness ≡ c.witness
        → d.witness_index ≡ c.witness_index
        → Runs k d

  start-Ok :
      (n : ℕ) (id leader : ℤ) (store : S) (c : Core S)
      → new_core n id leader store ≡ some c
      → WitnessOk 0 c
  unfolding new_core
  start-Ok n id leader store c e =
      subst (λ (w : Map RequestId Request). Witnessed 0 w c.witness_index) (sym (ground (arith, e)))
        (subst (λ (x : ConflictIndex). Witnessed 0 [] x) (sym (ground (arith, e))) no_witness)

  Runs-Ok : {k : ℕ} {c : Core S} → Runs k c → k < int_max → WitnessOk k c
  Runs-Ok (Runs.started {c} n id leader store e) room = start-Ok n id leader store c e
  Runs-Ok (Runs.submitted {k} {c} {d} r run same e) room =
      Kept-some d (submit-Kept r c k (Runs-Ok run (omega (arith, room))) same room) e
  Runs-Ok (Runs.executed {k} {c} run) room = apply-Ok k c (Runs-Ok run room)
  Runs-Ok (Runs.elsewhere {k} {c} {d} run e e') room = same_fields d (Runs-Ok run room) e e'

  -- In a state that a new core reaches by fewer than 2 ^ 63 submissions, by executions and by changes
  -- of the fields other than the witness records, where a request comes with the same command each time,
  -- no two witness records of different identities conflict, if both commands are ones that the store
  -- knows and no no-ops.
  pub witnesses_commute :
      (k : ℕ) (c : Core S) (i j : RequestId) (s t : Request)
      → Runs k c
      → k < int_max
      → find i c.witness ≡ some s
      → find j c.witness ≡ some t
      → id_beq i j ≡ false
      → IsReal s
      → IsReal t
      → conflict s.command t.command ≡ some false
  witnesses_commute k c i j s t run room hs ht apart rs rt =
      let h = Runs-Ok run room in
      let (m, e) = h.found i s hs in
      let (m', e') = h.found j t ht in h.commute s t m m' (ground (arith, apart, e, e')) rs rt
