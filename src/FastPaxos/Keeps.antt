-- ===== src/FastPaxos/Keeps.antt =====
-- What the steps of fastpaxos/core.go leave alone: decisions, results, payloads, membership.
pub mod Normal
pub mod Decisions
pub mod Recovery
pub mod Ticks
pub mod Requests
pub mod Receive
use consensus_arena.Prelude.{
  ℕ, zero, suc, ◌≤◌, ◌≡◌, refl, sym, ap, ◌∙◌, subst, Bool, true, false, not, ◌&&◌, ◌||◌, List, [],
  ◌∷◌, Option, none, some, get_or, if◌then◌else◌, arith, if_both, Bool-cases, Option-cases, inl,
  inr, ltb, leb, is_some,
}
use consensus_arena.Prelude.Int.{int_eq, ℤ, pos, negsuc, ◌==ℤ◌, ==ℤ_iff, ltb_ℤ}
use consensus_arena.Prelude.Maps.{Map, find, put, find-put, has}
use consensus_arena.State.{Command, Value}
use consensus_arena.Paxos.Defs.{RequestId, id_eq, id_beq, id_beq_iff, ◌>>=◌}
use consensus_arena.FastPaxos.Defs.{Record, Entry, same_value, beq_bool}
use consensus_arena.FastPaxos.Core.{
  Core, Slot, new_slot, Message, Kind, message, slot_at, put_slot, open_slot, send, broadcast,
  remember, forget_pending, enqueue, cast_vote, defer, cast, propose_fast, same_command,
}

-- An entry of the same value is there.
abbrev pub Agrees : Entry → Option Entry → Type 0
Agrees e none = ⊥
Agrees e (some x) = same_value x.value e.value ≡ true

same_value_refl : (a : Record) → same_value a a ≡ true
unfolding same_value
same_value_refl a = ground (arith, id_beq_iff a.id a.id)

pub same_value_trans :
    (a b c : Record) → same_value a b ≡ true → same_value b c ≡ true → same_value a c ≡ true
unfolding same_value
same_value_trans a b c p q =
    ground (arith, id_beq_iff a.id b.id, id_beq_iff b.id c.id, id_beq_iff a.id c.id)

pub same_value_sym : (a b : Record) → same_value a b ≡ true → same_value b a ≡ true
unfolding same_value
same_value_sym a b p = ground (arith, id_beq_iff a.id b.id, id_beq_iff b.id a.id)

pub Agrees-some : (e : Entry) (o : Option Entry) → o ≡ some e → Agrees e o
Agrees-some e o h = subst (Agrees e) (sym h) (same_value_refl e.value)

module _ {S : Type 0} where
  abbrev pub chosen_at : ℤ → Core S → Option Entry
  chosen_at s c = (slot_at s c).chosen

  pub record Keeps (c d : Core S) : Type 0 where
    pub n : d.n ≡ c.n
    pub id : d.id ≡ c.id
    pub promise : c.promise ≤ d.promise
    pub results :
        (i : RequestId) (v : Value) → find i c.results ≡ some v → find i d.results ≡ some v
    pub known : (i : RequestId) (r : Record) → find i c.known ≡ some r → find i d.known ≡ some r
    pub chosen : (s : ℤ) (e : Entry) → chosen_at s c ≡ some e → Agrees e (chosen_at s d)

  pub Keeps-refl : (c : Core S) → Keeps c c
  Keeps-refl c = record {
    n = refl;
    id = refl;
    promise = omega arith;
    results = λ i v h. h;
    known = λ i r h. h;
    chosen = λ s e h. Agrees-some e (chosen_at s c) h;
  }

  Agrees_trans :
      (s : ℤ) (e : Entry) (c d : Core S)
      → ((x : Entry) → chosen_at s c ≡ some x → Agrees x (chosen_at s d))
      → Agrees e (chosen_at s c)
      → Agrees e (chosen_at s d)
  Agrees_trans s e c d h a = elim (Option-cases (chosen_at s c)) [
    | inl gone ↦ absurd (subst (Agrees e) gone a)
    | inr (x, there) ↦ through x (subst (Agrees e) there a) (chosen_at s d) (h x there)
  ]
    where
      through :
          (x : Entry)
          → same_value x.value e.value ≡ true
          → (o : Option Entry) → Agrees x o
          → Agrees e o
      through x p none q = q
      through x p (some y) q = same_value_trans y.value x.value e.value q p

  pub Keeps-trans : {a b c : Core S} → Keeps a b → Keeps b c → Keeps a c
  Keeps-trans {a} {b} {c} p q = record {
    n = q.n ∙ p.n;
    id = q.id ∙ p.id;
    promise = omega (arith, p.promise, q.promise);
    results = λ i v h. q.results i v (p.results i v h);
    known = λ i r h. q.known i r (p.known i r h);
    chosen = λ s e h. Agrees_trans s e b c (q.chosen s) (p.chosen s e h);
  }

  -- A handler keeps these wherever it does not panic.
  pub data KeepsOption (c : Core S) : Option (Core S) → Type 0 where
    panics : KeepsOption c none
    keeps : {d : Core S} → Keeps c d → KeepsOption c (some d)

  pub from-Keeps :
      {c d : Core S} {m : Option (Core S)} → Keeps c d → KeepsOption d m → KeepsOption c m
  from-Keeps h KeepsOption.panics = KeepsOption.panics
  from-Keeps h (KeepsOption.keeps k) = KeepsOption.keeps (Keeps-trans h k)

  pub bind-Keeps :
      {c : Core S} {m : Option (Core S)} {f : Core S → Option (Core S)}
      → KeepsOption c m
      → ((d : Core S) → KeepsOption d (f d))
      → KeepsOption c (m >>= f)
  bind-Keeps KeepsOption.panics k = KeepsOption.panics
  bind-Keeps (KeepsOption.keeps {d} h) k = from-Keeps h (k d)

  -- The same for a loop that also returns what it collected.
  pub data KeepsPair (A : Type 0) (c : Core S) : Option (Core S × A) → Type 0 where
    panics : KeepsPair A c none
    keeps : {d : Core S} (a : A) → Keeps c d → KeepsPair A c (some (d, a))

  pub bind-KeepsPair :
      {A : Type 0} {c : Core S} {m : Option (Core S)} {f : Core S → Option (Core S × A)}
      → KeepsOption c m
      → ((d : Core S) → KeepsPair A d (f d))
      → KeepsPair A c (m >>= f)
  bind-KeepsPair KeepsOption.panics k = KeepsPair.panics
  bind-KeepsPair {A} {c} {m} {f} (KeepsOption.keeps {d} h) k = from_pair (k d)
    where
      from_pair : {o : Option (Core S × A)} → KeepsPair A d o → KeepsPair A c o
      from_pair KeepsPair.panics = KeepsPair.panics
      from_pair (KeepsPair.keeps a q) = KeepsPair.keeps a (Keeps-trans h q)

  pub then-KeepsPair :
      {A B : Type 0} {c : Core S} {m : Option (Core S × A)} {f : Core S × A → Option (Core S × B)}
      → KeepsPair A c m
      → ((x : Core S × A) → KeepsPair B x.0 (f x))
      → KeepsPair B c (m >>= f)
  then-KeepsPair KeepsPair.panics k = KeepsPair.panics
  then-KeepsPair {A} {B} {c} {m} {f} (KeepsPair.keeps {d} a h) k = from_pair (k (d, a))
    where
      from_pair : {o : Option (Core S × B)} → KeepsPair B d o → KeepsPair B c o
      from_pair KeepsPair.panics = KeepsPair.panics
      from_pair (KeepsPair.keeps b q) = KeepsPair.keeps b (Keeps-trans h q)

  pub end-KeepsPair :
      {A : Type 0} {c : Core S} {m : Option (Core S × A)} {f : Core S × A → Option (Core S)}
      → KeepsPair A c m
      → ((x : Core S × A) → KeepsOption x.0 (f x))
      → KeepsOption c (m >>= f)
  end-KeepsPair KeepsPair.panics k = KeepsOption.panics
  end-KeepsPair (KeepsPair.keeps {d} a h) k = from-Keeps h (k (d, a))

  pub Keeps-some :
      {c : Core S} (d : Core S) {o : Option (Core S)} → KeepsOption c o → o ≡ some d → Keeps c d
  Keeps-some d KeepsOption.panics e = ground (arith, e)
  Keeps-some {c} d (KeepsOption.keeps k) e =
      subst (Keeps c) (ap (λ (o : Option (Core S)). get_or o d) e) k

  pub done : {c : Core S} → KeepsOption c (some c)
  done {c} = KeepsOption.keeps (Keeps-refl c)

  -- A handler that does not touch what is kept.
  pub same-Keeps :
      (c d : Core S)
      → d.n ≡ c.n
      → d.id ≡ c.id
      → c.promise ≤ d.promise
      → d.results ≡ c.results
      → d.known ≡ c.known
      → d.slots ≡ c.slots
      → Keeps c d
  same-Keeps c d n id promise results known slots = record {
    n = n;
    id = id;
    promise = promise;
    results = λ i v h. ap (find i) results ∙ h;
    known = λ i v h. ap (find i) known ∙ h;
    chosen = λ s e h.
        Agrees-some e (chosen_at s d)
          (ap (λ (m : Map ℤ Slot). (get_or (find s m) new_slot).chosen) slots ∙ h);
  }

  chosen-put_slot :
      (s j : ℤ) (st : Slot) (c : Core S)
      → chosen_at j (put_slot s st c) ≡ (if s ==ℤ j then st.chosen else chosen_at j c)
  chosen-put_slot s j st c = ground (arith, find-put s j st c.slots)

  -- A change of a slot keeps what was kept, if its new decision agrees with the old one.
  pub put_slot-Keeps :
      (s : ℤ) (st : Slot) (c : Core S)
      → ((e : Entry) → chosen_at s c ≡ some e → Agrees e st.chosen)
      → Keeps c (put_slot s st c)
  put_slot-Keeps s st c h = record {
    n = refl;
    id = refl;
    promise = omega arith;
    results = λ i v k. k;
    known = λ i v k. k;
    chosen = λ j e k. subst (Agrees e) (sym (chosen-put_slot s j st c)) (either j e k);
  }
    where
      either :
          (j : ℤ) (e : Entry)
          → chosen_at j c ≡ some e
          → Agrees e (if s ==ℤ j then st.chosen else chosen_at j c)
      either j e k = elim (Bool-cases (s ==ℤ j)) [
        | inl same ↦
            rw same (h e (subst (λ (i : ℤ). chosen_at i c ≡ some e) (sym ((==ℤ_iff s j).0 same)) k))
        | inr other ↦ rw other (Agrees-some e (chosen_at j c) k)
      ]

  -- A change of a slot that leaves its decision alone.
  pub update-Keeps :
      (s : ℤ) (st : Slot) (c : Core S) → st.chosen ≡ chosen_at s c → Keeps c (put_slot s st c)
  update-Keeps s st c e = put_slot-Keeps s st c (λ x k. Agrees-some x st.chosen (e ∙ k))
