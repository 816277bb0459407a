-- ===== src/Curp/Members.antt =====
-- Membership in the list of a conflict index, for the witness records of curp/core.go.
use mathlib.Core.List.{Memᴰ}
use consensus_arena.Prelude.{
  ◌≡◌, refl, sym, ap, ◌∙◌, Bool, true, false, not, List, [], ◌∷◌, some, if◌then◌else◌, All, arith,
  ◌==◌, Bool-cases, inl, inr,
}
use consensus_arena.Prelude.Int.{int_eq}
use consensus_arena.State.{Command, op_none, conflict, conflict_any}
use consensus_arena.Paxos.Defs.{RequestId, id_beq, id_beq_iff, id_eq, Request}
use consensus_arena.Curp.Conflicts.{ConflictIndex, conflicts}
use consensus_arena.Curp.Indexed.{is_indexed, without}
use consensus_arena.Curp.Exact.{commands, HasCount}

pub conflict_sym : (a b : Command) → conflict a b ≡ conflict b a
unfolding conflict
conflict_sym a b = ground arith

pub conflicts-HasCount :
    (r : Request) (x : ConflictIndex) (b : Bool) → conflicts r x ≡ some b → HasCount r
unfolding conflicts
conflicts-HasCount r x b h scan = ground (arith, h, scan)

pub none_conflicts :
    (c : Command) (rs : List Request) (s : Request)
    → conflict_any c (commands rs) ≡ some false
    → Memᴰ s rs
    → (s.command.op == op_none) ≡ false
    → conflict c s.command ≡ some false
unfolding conflict_any
none_conflicts c [] s h m op = elim m [ ]
none_conflicts c (t ∷ rs) s h (Memᴰ.head e) op =
    ground (arith, h, op, ap (λ (u : Request). u.command.op) e)
none_conflicts c (t ∷ rs) s h (Memᴰ.tail m) op =
    ground
      (arith, h, λ (k : conflict_any c (commands rs) ≡ some false). none_conflicts c rs s k m op)

pub Memᴰ-of_without :
    (id : RequestId) (s : Request) (rs : List Request)
    → Memᴰ s (without id rs)
    → Memᴰ s rs × (id_beq s.id id ≡ false)
Memᴰ-of_without id s [] m = elim m [ ]
Memᴰ-of_without id s (t ∷ rs) m = go (id_beq t.id id) refl m (Memᴰ-of_without id s rs)
  where
    go :
        (b : Bool)
        → id_beq t.id id ≡ b
        → Memᴰ s (if not b then t ∷ without id rs else without id rs)
        → (Memᴰ s (without id rs) → Memᴰ s rs × (id_beq s.id id ≡ false))
        → Memᴰ s (t ∷ rs) × (id_beq s.id id ≡ false)
    go true e m ih = let (k, f) = ih m in (Memᴰ.tail k, f)
    go false e (Memᴰ.head q) ih = (Memᴰ.head q, ap (λ (u : Request). id_beq u.id id) q ∙ e)
    go false e (Memᴰ.tail m) ih = let (k, f) = ih m in (Memᴰ.tail k, f)

pub Memᴰ-without :
    (id : RequestId) (s : Request) (rs : List Request)
    → Memᴰ s rs
    → id_beq s.id id ≡ false
    → Memᴰ s (without id rs)
Memᴰ-without id s [] m f = elim m [ ]
Memᴰ-without id s (t ∷ rs) (Memᴰ.head q) f =
    go (id_beq t.id id) (ap (λ (u : Request). id_beq u.id id) (sym q) ∙ f)
  where
    go : (b : Bool) → b ≡ false → Memᴰ s (if not b then t ∷ without id rs else without id rs)
    go true e = ground (arith, e)
    go false e = Memᴰ.head q
Memᴰ-without id s (t ∷ rs) (Memᴰ.tail m) f = go (id_beq t.id id) (Memᴰ-without id s rs m f)
  where
    go :
        (b : Bool)
        → Memᴰ s (without id rs)
        → Memᴰ s (if not b then t ∷ without id rs else without id rs)
    go true k = k
    go false k = Memᴰ.tail k

pub is_indexed-Memᴰ :
    (id : RequestId) (rs : List Request)
    → is_indexed id rs ≡ true
    → (s : Request) × Memᴰ s rs × (s.id ≡ id)
is_indexed-Memᴰ id [] h = ground (arith, h)
is_indexed-Memᴰ id (t ∷ rs) h = elim (Bool-cases (id_beq t.id id)) [
  | inl own ↦ (t, Memᴰ.head refl, (id_beq_iff t.id id).0 own)
  | inr other ↦
      let (s, m, e) = is_indexed-Memᴰ id rs (ground (arith, h, other)) in (s, Memᴰ.tail m, e)
]

pub every_member : (rs : List Request) → ((s : Request) → Memᴰ s rs → HasCount s) → All HasCount rs
every_member [] h = tt
every_member (s ∷ rs) h = (h s (Memᴰ.head refl), every_member rs (λ t m. h t (Memᴰ.tail m)))
