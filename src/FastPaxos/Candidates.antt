-- ===== src/FastPaxos/Candidates.antt =====
-- The candidate values of `selectValue` in fastpaxos/recovery.go, and the pick among them.
use mathlib.Core.List.{Memᴰ}
use consensus_arena.Prelude.{
  ℕ, ◌≡◌, refl, ap, sym, subst, ◌∙◌, inl, inr, Bool, true, false, [], ◌∷◌, Option, some,
  if◌then◌else◌, arith, All, Bool-cases, length, if_both,
}
use consensus_arena.Prelude.Int.{ℤ, pos, leb_ℤ}
use consensus_arena.Prelude.Maps.{Map, find, put, find-put, has}
use consensus_arena.ReplicaSet.{Set, size}
use consensus_arena.Paxos.Defs.{RequestId, id_beq, id_beq_iff, id_eq}
use consensus_arena.FastPaxos.Defs.{Record, Entry}
use consensus_arena.FastPaxos.Choice.{first_supported}
use consensus_arena.FastPaxos.Selected.{values_from, support_of}

-- Each value stands under its request.
abbrev pub Keyed : Map RequestId Record → Type 0
Keyed values = All (λ (x : RequestId × Record). x.1.id ≡ x.0) values

put-Keyed : (v : Record) (values : Map RequestId Record) → Keyed values → Keyed (put v.id v values)
unfolding put
put-Keyed v [] k = (refl, tt)
put-Keyed v ((id, w) ∷ values) k =
    if_both Keyed (id_beq id v.id) (refl, k.1) (k.0, put-Keyed v values k.1)

pub values_from-Keyed :
    (reports : Map ℕ Entry) (values : Map RequestId Record)
    → Keyed values
    → Keyed (values_from reports values)
values_from-Keyed [] values k = k
values_from-Keyed ((i, e) ∷ reports) values k =
    values_from-Keyed reports (put e.value.id e.value values) (put-Keyed e.value values k)

has-values_from :
    (id : RequestId) (reports : Map ℕ Entry) (values : Map RequestId Record)
    → has id values ≡ true
    → has id (values_from reports values) ≡ true
has-values_from id [] values h = h
has-values_from id ((i, e) ∷ reports) values h =
    has-values_from id reports (put e.value.id e.value values)
      (ground (arith, find-put e.value.id id e.value values))

pub reported-has :
    (i : ℕ) (e : Entry) (reports : Map ℕ Entry) (values : Map RequestId Record)
    → Memᴰ (i, e) reports
    → has e.value.id (values_from reports values) ≡ true
reported-has i e [] values m = elim m [ ]
reported-has i e ((j, d) ∷ reports) values (Memᴰ.tail m) =
    reported-has i e reports (put d.value.id d.value values) m
reported-has i e ((j, d) ∷ reports) values (Memᴰ.head q) =
    has-values_from e.value.id reports (put d.value.id d.value values) (
      ground (
        arith,
        find-put d.value.id e.value.id d.value values,
        id_beq_iff d.value.id e.value.id,
        ap (λ (x : ℕ × Entry). x.1.value.id) q,
      ))

-- A map of one key has no other.
pub has_single :
    (a b : RequestId) (values : Map RequestId Record)
    → length values ≡ 1
    → has a values ≡ true
    → has b values ≡ true
    → a ≡ b
unfolding find
has_single a b [] l h k = absurd (omega arith)
has_single a b ((c, v) ∷ []) l h k = ground (arith, id_beq_iff c a, id_beq_iff c b)
has_single a b ((c, v) ∷ d ∷ values) l h k = absurd (omega arith)

pick_head :
    (b : Bool) (v w : Record) (rest : Option Record)
    → b ≡ true
    → (if b then some v else rest) ≡ some w
    → v ≡ w
pick_head b v w rest t h = ground (arith, t, h)

pick_tail :
    (b : Bool) (v w : Record) (rest : Option Record)
    → b ≡ false
    → (if b then some v else rest) ≡ some w
    → rest ≡ some w
pick_tail b v w rest t h = ground (arith, t, h)

-- Whether a request has enough replicas behind it.
abbrev enough_for : ℤ → Map RequestId Set → RequestId → Bool
enough_for minimum supports id = leb_ℤ minimum (pos (size (support_of id supports)))

true-false : (b : Bool) → b ≡ true → b ≡ false → ⊥
true-false b p q = ground (arith, p, q)

-- What is picked has enough replicas behind it.
pub first_supported_sound :
    (minimum : ℤ) (values : Map RequestId Record) (supports : Map RequestId Set) (w : Record)
    → Keyed values
    → first_supported minimum values supports ≡ some w
    → leb_ℤ minimum (pos (size (support_of w.id supports))) ≡ true
unfolding first_supported
first_supported_sound minimum [] supports w k h = ground (arith, h)
first_supported_sound minimum ((id, v) ∷ values) supports w k h =
    elim (Bool-cases (leb_ℤ minimum (pos (size (support_of id supports))))) [
      | inl enough ↦
          subst (λ i. enough_for minimum supports i ≡ true)
            (sym k.0
              ∙ ap (λ (x : Record). x.id)
                  (pick_head (enough_for minimum supports id) v w
                    (first_supported minimum values supports) enough h))
            enough
      | inr short ↦ first_supported_sound minimum values supports w k.1 (
          pick_tail (enough_for minimum supports id) v w (first_supported minimum values supports)
            short h)
    ]

-- Something is picked where a value has enough replicas behind it.
pub first_supported_total :
    (minimum : ℤ) (values : Map RequestId Record) (supports : Map RequestId Set) (id : RequestId)
    → has id values ≡ true
    → leb_ℤ minimum (pos (size (support_of id supports))) ≡ true
    → (w : Record) × (first_supported minimum values supports ≡ some w)
unfolding first_supported find
first_supported_total minimum [] supports id h enough = ground (arith, h)
first_supported_total minimum ((j, v) ∷ values) supports id h enough =
    elim (Bool-cases (leb_ℤ minimum (pos (size (support_of j supports))))) [
      | inl here ↦ (v, rw here refl)
      | inr short ↦ elim (Bool-cases (id_beq j id)) [
        | inl same ↦ absurd (
            true-false (enough_for minimum supports j)
              (subst (λ i. enough_for minimum supports i ≡ true) (sym ((id_beq_iff j id).0 same))
                enough)
              short)
        | inr other ↦
            let (w, e) =
              first_supported_total minimum values supports id (ground (arith, h, other)) enough in
            (w, rw short e)
      ]
    ]
