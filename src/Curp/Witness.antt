-- ===== src/Curp/Witness.antt =====
-- The witness records of curp/core.go: what `submit` and `apply` keep true of them.
use mathlib.Core.List.{Memᴰ}
use consensus_arena.Prelude.{
  ℕ, suc, ◌≡◌, ◌<◌, ◌≤◌, refl, sym, ap, subst, ◌∙◌, Bool, true, false, List, [], ◌∷◌, Option, none,
  some, if◌then◌else◌, length, arith, ◌==◌, Bool-cases, inl, inr, get_or,
}
use consensus_arena.Prelude.Int.{int_eq, int_max}
use consensus_arena.Prelude.Maps.{Map, find, put, delete, find-put, find-put_self, find-delete}
use consensus_arena.State.{op_none, op_scan, conflict}
use consensus_arena.Paxos.Defs.{RequestId, id_beq, id_beq_iff, id_eq, Request}
use consensus_arena.Curp.Conflicts.{ConflictIndex, new_conflict_index, add, remove, conflicts}
use consensus_arena.Curp.Indexed.{Indexes, is_indexed, without, length-without}
use consensus_arena.Curp.Exact.{HasCount, conflicts_exact}
use consensus_arena.Curp.Members.{
  conflict_sym, conflicts-HasCount, none_conflicts, Memᴰ-of_without, Memᴰ-without, is_indexed-Memᴰ,
  every_member,
}

-- A command that the store knows and that is no no-op.
abbrev pub IsReal : Request → Type 0
IsReal s = ((s.command.op == op_none) ≡ false) × (s.command.op ≤ op_scan)

-- The witness records, by the list that the index holds: the map has the same requests under their
-- identities, there are at most k, a SCAN has its count, and no two of different identities conflict.
pub record Witnessed (k : ℕ) (witness : Map RequestId Request) (x : ConflictIndex) : Type 0 where
  pub requests : List Request
  pub bound : length requests ≤ k
  pub indexes : Indexes requests x
  pub listed : (s : Request) → Memᴰ s requests → find s.id witness ≡ some s
  pub found :
      (id : RequestId) (s : Request) → find id witness ≡ some s → Memᴰ s requests × (s.id ≡ id)
  pub counts : (s : Request) → Memᴰ s requests → HasCount s
  pub commute :
      (s t : Request)
      → Memᴰ s requests
      → Memᴰ t requests
      → id_beq s.id t.id ≡ false
      → IsReal s
      → IsReal t
      → conflict s.command t.command ≡ some false

-- The record of a request goes.
pub deleted :
    {k : ℕ} {w : Map RequestId Request} {x : ConflictIndex} (r : Request)
    → (h : Witnessed k w x) → Memᴰ r h.requests
    → Witnessed k (delete r.id w) (remove r x)
deleted {k} {w} {x} r h m = record {
  requests = without r.id h.requests;
  bound = omega (arith, h.bound, length-without r.id h.requests);
  indexes = Indexes.removed r h.indexes m;
  listed = λ s k.
      let (k', f) = Memᴰ-of_without r.id s h.requests k in
      ground (
        arith,
        find-delete r.id s.id w,
        h.listed s k',
        f,
        id_beq_iff r.id s.id,
        id_beq_iff s.id r.id,
      );
  found = remaining;
  counts = λ s k. h.counts s (Memᴰ-of_without r.id s h.requests k).0;
  commute = λ s t k l.
      h.commute s t (Memᴰ-of_without r.id s h.requests k).0 (Memᴰ-of_without r.id t h.requests l).0;
}
  where
    remaining :
        (id : RequestId) (s : Request)
        → find id (delete r.id w) ≡ some s
        → Memᴰ s (without r.id h.requests) × (s.id ≡ id)
    remaining id s q =
        let there : find id w ≡ some s = ground (arith, find-delete r.id id w, q) in
        let other : id_beq r.id id ≡ false = ground (arith, find-delete r.id id w, q) in
        let (m, e) = h.found id s there in
        (
          Memᴰ-without r.id s h.requests m
              (ground (arith, other, e, id_beq_iff s.id r.id, id_beq_iff r.id id)),
          e,
        )

-- A request that conflicts with none of the records, under an identity that has none, joins them.
pub added :
    {k : ℕ} {w : Map RequestId Request} {x : ConflictIndex} (r : Request)
    → (h : Witnessed k w x) → suc k < int_max
    → find r.id w ≡ none
    → conflicts r x ≡ some false
    → Witnessed (suc k) (put r.id r w) (add r x)
added {k} {w} {x} r h room fresh free = record {
  requests = r ∷ h.requests;
  bound = omega (arith, h.bound);
  indexes =
      Indexes.added r h.indexes (not_indexed (is_indexed r.id h.requests) refl)
        (omega (arith, room, h.bound));
  listed = listed';
  found = found';
  counts = counts';
  commute = commute';
}
  where
    not_indexed : (b : Bool) → is_indexed r.id h.requests ≡ b → is_indexed r.id h.requests ≡ false
    not_indexed true e =
        let (s, m, own) = is_indexed-Memᴰ r.id h.requests e in
        ground (arith, fresh, subst (λ (i : RequestId). find i w ≡ some s) own (h.listed s m))
    not_indexed false e = e

    listed' : (s : Request) → Memᴰ s (r ∷ h.requests) → find s.id (put r.id r w) ≡ some s
    listed' s (Memᴰ.head e) =
        subst (λ (u : Request). find u.id (put r.id r w) ≡ some u) (sym e) (find-put_self r.id r w)
    listed' s (Memᴰ.tail m) = ground (
      arith,
      find-put r.id s.id r w,
      h.listed s m,
      fresh,
      id_beq_iff r.id s.id,
      id_beq_iff s.id r.id,
    )

    found' :
        (id : RequestId) (s : Request)
        → find id (put r.id r w) ≡ some s
        → Memᴰ s (r ∷ h.requests) × (s.id ≡ id)
    found' id s k = elim (Bool-cases (id_beq r.id id)) [
      | inl own ↦
          let same : r ≡ s =
            ap (λ (o : Option Request). get_or o r)
              (subst (λ (b : Bool). (if b then some r else find id w) ≡ some s) own
                (sym (find-put r.id id r w) ∙ k)) in
          (Memᴰ.head (sym same), ap (λ (u : Request). u.id) (sym same) ∙ (id_beq_iff r.id id).0 own)
      | inr other ↦
          let (m, e) = h.found id s (ground (arith, find-put r.id id r w, k, other)) in
          (Memᴰ.tail m, e)
    ]

    own_count : HasCount r
    own_count = conflicts-HasCount r x false free

    counts' : (s : Request) → Memᴰ s (r ∷ h.requests) → HasCount s
    counts' s (Memᴰ.head e) = subst HasCount (sym e) own_count
    counts' s (Memᴰ.tail m) = h.counts s m

    free_of :
        (s : Request)
        → Memᴰ s h.requests
        → IsReal r
        → IsReal s
        → conflict r.command s.command ≡ some false
    free_of s m real real' =
        none_conflicts r.command h.requests s
          (ground (
            arith,
            free,
            real,
            conflicts_exact h.requests x r h.indexes (every_member h.requests h.counts) own_count
                real.1,
          ))
          m real'.0

    commute' :
        (s t : Request)
        → Memᴰ s (r ∷ h.requests)
        → Memᴰ t (r ∷ h.requests)
        → id_beq s.id t.id ≡ false
        → IsReal s
        → IsReal t
        → conflict s.command t.command ≡ some false
    commute' s t (Memᴰ.head e) (Memᴰ.head e') apart rs rt =
        ground (arith, apart, id_beq_iff s.id t.id, ap (λ (u : Request). u.id) (e ∙ sym e'))
    commute' s t (Memᴰ.head e) (Memᴰ.tail m) apart rs rt =
        ap (λ (u : Request). conflict u.command t.command) e ∙ free_of t m (subst IsReal e rs) rt
    commute' s t (Memᴰ.tail m) (Memᴰ.head e) apart rs rt =
        conflict_sym s.command t.command
        ∙ ap (λ (u : Request). conflict u.command s.command) e
        ∙ free_of s m (subst IsReal e rt) rs
    commute' s t (Memᴰ.tail m) (Memᴰ.tail m') apart rs rt = h.commute s t m m' apart rs rt

-- The record of a request that was taken out for the test is back in the index.
pub readded :
    {k : ℕ} {w w' : Map RequestId Request} {x : ConflictIndex} (r : Request)
    → (h : Witnessed k w x) → suc k < int_max
    → Memᴰ r h.requests
    → ((id : RequestId) → find id w' ≡ find id w)
    → Witnessed (suc k) w' (add r (remove r x))
readded {k} {w} {w'} {x} r h room m same = record {
  requests = r ∷ without r.id h.requests;
  bound = omega (arith, h.bound, length-without r.id h.requests);
  indexes =
      Indexes.added r (Indexes.removed r h.indexes m)
        (gone (is_indexed r.id (without r.id h.requests)) refl)
        (omega (arith, room, h.bound, length-without r.id h.requests));
  listed = λ s k. same s.id ∙ h.listed s (back s k);
  found = λ id s k. let (k', e) = h.found id s (sym (same id) ∙ k) in (there s k', e);
  counts = λ s k. h.counts s (back s k);
  commute = λ s t k l. h.commute s t (back s k) (back t l);
}
  where
    gone :
        (b : Bool)
        → is_indexed r.id (without r.id h.requests) ≡ b
        → is_indexed r.id (without r.id h.requests) ≡ false
    gone true e =
        let (s, k, own) = is_indexed-Memᴰ r.id (without r.id h.requests) e in
        ground (arith, (Memᴰ-of_without r.id s h.requests k).1, id_beq_iff s.id r.id, own)
    gone false e = e

    back : (s : Request) → Memᴰ s (r ∷ without r.id h.requests) → Memᴰ s h.requests
    back s (Memᴰ.head e) = subst (λ (u : Request). Memᴰ u h.requests) (sym e) m
    back s (Memᴰ.tail k) = (Memᴰ-of_without r.id s h.requests k).0

    there : (s : Request) → Memᴰ s h.requests → Memᴰ s (r ∷ without r.id h.requests)
    there s k = elim (Bool-cases (id_beq s.id r.id)) [
      | inl own ↦ Memᴰ.head (
          ap (λ (o : Option Request). get_or o r)
            (sym (h.listed s k)
              ∙ ap (λ (i : RequestId). find i w) ((id_beq_iff s.id r.id).0 own)
              ∙ h.listed r m))
      | inr other ↦ Memᴰ.tail (Memᴰ-without r.id s h.requests k other)
    ]

pub no_witness : Witnessed 0 [] new_conflict_index
unfolding find
no_witness = record {
  requests = [];
  bound = omega arith;
  indexes = Indexes.empty;
  listed = λ s m. elim m [ ];
  found = λ id s e. ground (arith, e);
  counts = λ s m. elim m [ ];
  commute = λ s t m. elim m [ ];
}

-- A map with the same entries.
pub same_find :
    {k : ℕ} {w w' : Map RequestId Request} {x : ConflictIndex}
    → Witnessed k w x
    → ((id : RequestId) → find id w' ≡ find id w)
    → Witnessed k w' x
same_find h same = record {
  requests = h.requests;
  bound = h.bound;
  indexes = h.indexes;
  listed = λ s m. same s.id ∙ h.listed s m;
  found = λ id s e. h.found id s (sym (same id) ∙ e);
  counts = h.counts;
  commute = h.commute;
}
