-- ===== src/FastPaxos/Keeps/Decisions.antt =====
-- Decisions, execution and admission: fastpaxos/core.go and fastpaxos/execute.go.
use consensus_arena.Prelude.{
  ℕ, zero, suc, ◌≡◌, refl, ap, ◌∙◌, Bool, true, false, not, [], ◌∷◌, ◌++◌, Option, none, some,
  get_or, if◌then◌else◌, arith, if_both, Bool-cases, inl, inr,
}
use consensus_arena.Prelude.Int.{int_eq, ℤ}
use consensus_arena.Prelude.Maps.{Map, find, put, find-put, has}
use consensus_arena.State.{Command, Value}
use consensus_arena.Paxos.Defs.{RequestId, id_eq, id_beq_iff, ◌>>=◌, next}
use consensus_arena.FastPaxos.Defs.{Record, Entry, same_value}
use consensus_arena.FastPaxos.Core.{
  Core, Slot, new_slot, slot_at, put_slot, remember, forget_pending, same_command, is_pending,
}
use consensus_arena.FastPaxos.Normal.{
  propose_again, decide, is_conflict, run, apply_round, apply_rounds, apply, learn, admit, submit,
}
use consensus_arena.FastPaxos.Keeps.{
  Agrees, same_value_sym, chosen_at, Keeps, Keeps-refl, Keeps-trans, KeepsOption, from-Keeps,
  bind-Keeps, done, same-Keeps, put_slot-Keeps,
}
use consensus_arena.FastPaxos.Keeps.Normal.{
  open_slot-Keeps, remember-Keeps, forget_pending-Keeps, enqueue-Keeps, propose_fast-Keeps,
  propose_again-Keeps,
}

module _ {S : Type 0} where
  chosen_agrees :
      (e : Entry) (c : Core S)
      → is_conflict e c ≡ false
      → (x : Entry) → chosen_at e.slot c ≡ some x
      → Agrees x (some (record e { decided = true }))
  chosen_agrees e c h x k = same_value_sym x.value e.value (compared (slot_at e.slot c).chosen h k)
    where
      compared :
          (o : Option Entry)
          → elim o [ none ↦ false | some y ↦ not (same_value y.value e.value) ] ≡ false
          → o ≡ some x
          → same_value x.value e.value ≡ true
      compared o h k = ground (arith, h, k)

  decide-Keeps : (e : Entry) (c : Core S) → is_conflict e c ≡ false → Keeps c (decide e c)
  unfolding decide
  decide-Keeps e c h = if_both (Keeps c) _ kept (Keeps-trans kept (forget_pending-Keeps _ _))
    where
      kept : Keeps c (
          put_slot e.slot
            (record (slot_at e.slot c) { chosen = some (record e { decided = true }) })
            c)
      kept = put_slot-Keeps e.slot _ c (chosen_agrees e c h)

put_fresh :
    (k i : RequestId) (x w : Value) (m : Map RequestId Value)
    → has k m ≡ false
    → find i m ≡ some w
    → find i (put k x m) ≡ some w
put_fresh k i x w m fresh h = ground (arith, find-put k i x m, id_beq_iff k i, fresh, h)

pub find-KeepsOption :
    {A S : Type 0} {c : Core S} (o : Option A) {f : A → Option (Core S)}
    → ((a : A) → KeepsOption c (f a))
    → KeepsOption c (o >>= f)
find-KeepsOption none h = KeepsOption.panics
find-KeepsOption (some a) h = h a

module _ {S : Type 0} (execute : Command → S → S × Value) where
  run-Keeps : (v : Record) (c : Core S) → Keeps c (run execute v c)
  unfolding run
  run-Keeps v c = go (has v.id c.results) refl
    where
      new :
          has v.id c.results ≡ false
          → Keeps c (record c {
            store = (execute v.command c.store).0;
            results = put v.id (execute v.command c.store).1 c.results;
            replies = c.replies ++ (v.id, (execute v.command c.store).1) ∷ [];
          })
      new fresh = record {
        n = refl;
        id = refl;
        promise = omega arith;
        results = λ i w h. put_fresh v.id i (execute v.command c.store).1 w c.results fresh h;
        known = λ i r h. h;
        chosen = (Keeps-refl c).chosen;
      }

      go :
          (b : Bool)
          → has v.id c.results ≡ b
          → Keeps c (
              if b then c else record c {
                store = (execute v.command c.store).0;
                results = put v.id (execute v.command c.store).1 c.results;
                replies = c.replies ++ (v.id, (execute v.command c.store).1) ∷ [];
              })
      go true e = Keeps-refl c
      go false e = new e

  -- The round behind the slot and its decision.
  apply_entry-Keeps :
      (e : Entry) (c : Core S)
      → KeepsOption c (
          (if e.value.noop then some c else elim (find e.value.id c.known) [
            | none ↦ none
            | some full ↦
                some (forget_pending e.value.id (run execute (record full { id = e.value.id }) c))
          ])
          >>= λ c'. some (record c' { executed = next c'.executed; last_progress = c'.now }))
  apply_entry-Keeps e c =
      bind-Keeps (if_both (KeepsOption c) _ done (payload (find e.value.id c.known)))
        (λ d. KeepsOption.keeps (same-Keeps d _ refl refl (omega arith) refl refl refl))
    where
      payload :
          (o : Option Record)
          → KeepsOption c (elim o [
            | none ↦ none
            | some full ↦
                some (forget_pending e.value.id (run execute (record full { id = e.value.id }) c))
          ])
      payload none = KeepsOption.panics
      payload (some full) =
          KeepsOption.keeps (Keeps-trans (run-Keeps _ c) (forget_pending-Keeps _ _))

  apply_round-Keeps : (c : Core S) → KeepsOption c (apply_round execute c)
  unfolding apply_round
  apply_round-Keeps c =
      find-KeepsOption (find (next c.executed) c.slots)
        (λ st. find-KeepsOption st.chosen (λ e. apply_entry-Keeps e c))

  apply_rounds-Keeps : (fuel : ℕ) (c : Core S) → Keeps c (apply_rounds execute fuel c)
  unfolding apply_rounds
  apply_rounds-Keeps zero c = Keeps-refl c
  apply_rounds-Keeps (suc fuel) c =
      go (apply_round execute c) (apply_round-Keeps c) (apply_rounds-Keeps fuel)
    where
      go :
          (o : Option (Core S))
          → KeepsOption c o
          → ((d : Core S) → Keeps d (apply_rounds execute fuel d))
          → Keeps c (elim o [ none ↦ c | some c' ↦ apply_rounds execute fuel c' ])
      go o KeepsOption.panics ih = Keeps-refl c
      go o (KeepsOption.keeps {d} h) ih = Keeps-trans h (ih d)

  pub apply-Keeps : (c : Core S) → Keeps c (apply execute c)
  unfolding apply
  apply-Keeps c = apply_rounds-Keeps _ c

  slots-remember : (v : Record) (c d : Core S) → remember v c ≡ some d → d.slots ≡ c.slots
  unfolding remember
  slots-remember v c d h = known_case v.noop (find v.id c.known) h
    where
      known_case :
          (b : Bool) (o : Option Record)
          → (if b then some c else elim o [
            | none ↦ some (record c { known = put v.id v c.known })
            | some old ↦ if same_command old.command v.command then some c else none
          ])
            ≡ some d
          → d.slots ≡ c.slots
      known_case b o h = ground (arith, h)

  -- `learn` behind the test, and behind the payload.
  decided-Keeps :
      (e : Entry) (c : Core S)
      → is_conflict e c ≡ false
      → KeepsOption c (propose_again e (apply execute (decide e c)))
  decided-Keeps e c h =
      from-Keeps (decide-Keeps e c h) (from-Keeps (apply-Keeps _) (propose_again-Keeps e _))

  learned-Keeps :
      (e : Entry) (c : Core S)
      → is_conflict e c ≡ false
      → KeepsOption c (
          (if e.payload then remember e.value c else some c) >>= λ d.
          propose_again e (apply execute (decide e d)))
  learned-Keeps e c h =
      if_both
        (λ (m : Option (Core S)).
          KeepsOption c (m >>= λ d. propose_again e (apply execute (decide e d))))
        e.payload (remembered (remember e.value c) refl (remember-Keeps e.value c))
        (decided-Keeps e c h)
    where
      remembered :
          (o : Option (Core S))
          → remember e.value c ≡ o
          → KeepsOption c o
          → KeepsOption c (o >>= λ d. propose_again e (apply execute (decide e d)))
      remembered o eq KeepsOption.panics = KeepsOption.panics
      remembered o eq (KeepsOption.keeps {d} k) = from-Keeps k (
          decided-Keeps e d (
            ap
              (λ (m : Map ℤ Slot). elim (get_or (find e.slot m) new_slot).chosen [
                | none ↦ false
                | some x ↦ not (same_value x.value e.value)
              ])
              (slots-remember e.value c d eq)
            ∙ h))

  pub learn-Keeps : (e : Entry) (c : Core S) → KeepsOption c (learn execute e c)
  unfolding learn
  learn-Keeps e c = bind-Keeps (open_slot-Keeps e.slot c) (λ d.
      elim (Bool-cases (is_conflict e d)) [
        | inl bad ↦ rw bad KeepsOption.panics
        | inr good ↦ rw good (learned-Keeps e d good)
      ])

  admit-Keeps : (v : Record) (c : Core S) → KeepsOption c (admit execute v c)
  unfolding admit
  admit-Keeps v c = from-Keeps (same-Keeps c _ refl refl (omega arith) refl refl refl) (
      if_both (KeepsOption _) _ (propose_fast-Keeps v _)
        (KeepsOption.keeps (if_both (Keeps _) _ (enqueue-Keeps v.id _) (Keeps-refl _))))

  pub submit-Keeps : (v : Record) (c : Core S) → KeepsOption c (submit execute v c)
  unfolding submit
  submit-Keeps v c = bind-Keeps (remember-Keeps v c) (λ d.
      from-Keeps (apply-Keeps d) (replied (apply execute d) (find v.id (apply execute d).results)))
    where
      replied :
          (c2 : Core S) (o : Option Value)
          → KeepsOption c2 (elim o [
            | some result ↦ some (record c2 { replies = c2.replies ++ (v.id, result) ∷ [] })
            | none ↦ if is_pending v.id c2.pending then some c2 else admit execute v c2
          ])
      replied c2 (some result) =
          KeepsOption.keeps (same-Keeps c2 _ refl refl (omega arith) refl refl refl)
      replied c2 none = if_both (KeepsOption c2) _ done (admit-Keeps v c2)
