-- ===== src/Curp/Indexed.antt =====
-- What a conflict index of curp/conflicts.go holds: the requests that were added and not removed.
use mathlib.Core.List.{Memᴰ}
use consensus_arena.Prelude.{
  ℕ, suc, ◌+◌, ◌≡◌, ◌<◌, ◌≤◌, refl, sym, ap, subst, ◌∙◌, Bool, true, false, not, ◌&&◌, ◌||◌, List,
  [], ◌∷◌, if◌then◌else◌, length, filterb, All, arith, ◌==◌, if_both,
}
use consensus_arena.Prelude.Int.{int_eq, ℤ, ◌==ℤ◌, ==ℤ_iff, int_max}
use consensus_arena.Prelude.Maps.{Map, find, put, delete}
use consensus_arena.State.{Key, op_none, op_put, op_scan}
use consensus_arena.Paxos.Defs.{RequestId, id_beq, id_beq_iff, id_eq, Request}
use consensus_arena.Curp.Conflicts.{
  ConflictIndex, new_conflict_index, increase, decrease, add, remove,
}
use consensus_arena.Curp.Counts.{
  any, count, count-any, count-length, any-and_false, any-filterb, counted, find-increase,
  find-decrease,
}

abbrev pub is_indexed : RequestId → List Request → Bool
is_indexed id rs = any (λ s. id_beq s.id id) rs

abbrev pub without : RequestId → List Request → List Request
without id rs = filterb (λ s. not (id_beq s.id id)) rs

-- The index after a sequence of additions and removals. A request is added when no request of its
-- identity is in the index, and removed when it is in it; there are fewer than 2 ^ 63 - 1 of them.
pub data Indexes : List Request → ConflictIndex → Type 0 where
  empty : Indexes [] new_conflict_index
  added :
      {rs : List Request} {x : ConflictIndex} (r : Request)
      → Indexes rs x
      → is_indexed r.id rs ≡ false
      → suc (length rs) < int_max
      → Indexes (r ∷ rs) (add r x)
  removed :
      {rs : List Request} {x : ConflictIndex} (r : Request)
      → Indexes rs x
      → Memᴰ r rs
      → Indexes (without r.id rs) (remove r x)

abbrev pub is_scan : Request → Bool
is_scan s = s.command.op == op_scan

-- A command of one key, and a PUT, of the key.
abbrev pub keyed : Key → Request → Bool
keyed k s = not (s.command.op == op_none) && (not (is_scan s) && s.command.k ==ℤ k)

abbrev pub written : Key → Request → Bool
written k s = s.command.op == op_put && s.command.k ==ℤ k

abbrev pub any_entry : (Request → Bool) → Map RequestId Request → Bool
any_entry p m = any (λ (e : RequestId × Request). p e.1) m

abbrev pub Keyed : Map RequestId Request → Type 0
Keyed m = All (λ (e : RequestId × Request). e.0 ≡ e.1.id) m

abbrev pub Distinct : List Request → Type 0
Distinct [] = Unit
Distinct (s ∷ rs) = (is_indexed s.id rs ≡ false) × Distinct rs

pub record Holds (rs : List Request) (x : ConflictIndex) : Type 0 where
  pub all : (k : Key) → find k x.all ≡ counted (count (keyed k) rs)
  pub writes : (k : Key) → find k x.writes ≡ counted (count (written k) rs)
  pub scans : (p : Request → Bool) → any_entry p x.scans ≡ any (λ s. is_scan s && p s) rs
  pub keys : Keyed x.scans
  pub distinct : Distinct rs
  pub bound : length rs < int_max

-- A scan that is put under a fresh identity joins the others, and one that is deleted leaves them.
pub any_entry-put :
    (p : Request → Bool) (r : Request) (m : Map RequestId Request)
    → Keyed m
    → any_entry (λ s. id_beq s.id r.id) m ≡ false
    → any_entry p (put r.id r m) ≡ (p r || any_entry p m)
unfolding put
any_entry-put p r [] h fresh = refl
any_entry-put p r ((j, s) ∷ m) (h, hs) fresh =
    ground (arith, id_beq_iff j r.id, id_beq_iff s.id r.id, h, fresh, any_entry-put p r m hs)

pub Keyed-put : (r : Request) (m : Map RequestId Request) → Keyed m → Keyed (put r.id r m)
unfolding put
Keyed-put r [] h = (refl, tt)
Keyed-put r ((j, s) ∷ m) (h, hs) = if_both Keyed (id_beq j r.id) (refl, hs) (h, Keyed-put r m hs)

pub any_entry-delete :
    (p : Request → Bool) (id : RequestId) (m : Map RequestId Request)
    → Keyed m
    → any_entry p (delete id m) ≡ any_entry (λ s. not (id_beq s.id id) && p s) m
unfolding delete
any_entry-delete p id [] h = refl
any_entry-delete p id ((j, s) ∷ m) (h, hs) =
    ground (arith, id_beq_iff j id, id_beq_iff s.id id, h, any_entry-delete p id m hs)

pub Keyed-delete : (id : RequestId) (m : Map RequestId Request) → Keyed m → Keyed (delete id m)
unfolding delete
Keyed-delete id [] h = tt
Keyed-delete id ((j, s) ∷ m) (h, hs) =
    if_both Keyed (id_beq j id) (Keyed-delete id m hs) (h, Keyed-delete id m hs)

count-fresh :
    (p : Request → Bool) (id : RequestId) (rs : List Request)
    → is_indexed id rs ≡ false
    → count p (without id rs) ≡ count p rs
count-fresh p id [] h = refl
count-fresh p id (s ∷ rs) h = ground (arith, h, count-fresh p id rs)

pub is_indexed-member : (r : Request) (rs : List Request) → Memᴰ r rs → is_indexed r.id rs ≡ true
is_indexed-member r [] m = elim m [ ]
is_indexed-member r (s ∷ rs) (Memᴰ.head e) =
    ground (arith, id_beq_iff s.id r.id, ap (λ (t : Request). t.id) e)
is_indexed-member r (s ∷ rs) (Memᴰ.tail m) = ground (arith, is_indexed-member r rs m)

is_indexed-same :
    (id : RequestId) (r : Request) (rs : List Request)
    → Memᴰ r rs
    → id_beq id r.id ≡ true
    → is_indexed id rs ≡ true
is_indexed-same id r rs m e =
    subst (λ (i : RequestId). is_indexed i rs ≡ true) (sym ((id_beq_iff id r.id).0 e))
      (is_indexed-member r rs m)

count-without :
    (p : Request → Bool) (r : Request) (rs : List Request)
    → Distinct rs
    → Memᴰ r rs
    → count p rs ≡ (if p r then 1 else 0) + count p (without r.id rs)
count-without p r [] d m = elim m [ ]
count-without p r (s ∷ rs) (fresh, d) (Memᴰ.head e) = ground (
  arith,
  ap p e,
  id_beq_iff s.id r.id,
  ap (λ (t : Request). t.id) e,
  count-fresh p r.id rs (
      subst (λ (i : RequestId). is_indexed i rs ≡ false) (ap (λ (t : Request). t.id) (sym e))
        fresh),
)
count-without p r (s ∷ rs) (fresh, d) (Memᴰ.tail m) = ground (
  arith,
  id_beq_iff s.id r.id,
  id_beq_iff r.id s.id,
  fresh,
  is_indexed-same s.id r rs m,
  count-without p r rs d m,
)

pub Distinct-without : (id : RequestId) (rs : List Request) → Distinct rs → Distinct (without id rs)
Distinct-without id [] d = tt
Distinct-without id (s ∷ rs) (fresh, d) =
    if_both Distinct (not (id_beq s.id id)) (fresh', Distinct-without id rs d)
      (Distinct-without id rs d)
  where
    fresh' : is_indexed s.id (without id rs) ≡ false
    fresh' =
        any-filterb (λ t. id_beq t.id s.id) (λ t. not (id_beq t.id id)) rs
        ∙ any-and_false (λ t. id_beq t.id s.id) (λ t. not (id_beq t.id id)) rs fresh

-- What a map counts of the requests, by a test for each key.
module _ (test : Key → Request → Bool) (rs : List Request) (m : Map Key ℤ) (r : Request)
    (h : (k : Key) → find k m ≡ counted (count (test k) rs)) where
  pub counts_same :
      ((k : Key) → test k r ≡ false) → (k : Key) → find k m ≡ counted (count (test k) (r ∷ rs))
  counts_same none_of k = rw (none_of k) (h k)

  pub counts_added :
      ((k : Key) → test k r ≡ (r.command.k ==ℤ k))
      → suc (length rs) < int_max
      → (k : Key) → find k (increase r.command.k m) ≡ counted (count (test k) (r ∷ rs))
  counts_added own room k =
      rw
        (
          find-increase r.command.k k (count (test r.command.k) rs) m (h r.command.k)
              (omega (arith, room, count-length (test r.command.k) rs)),
          own k,
        )
        (either (r.command.k ==ℤ k) refl)
    where
      either :
          (b : Bool)
          → (r.command.k ==ℤ k) ≡ b
          → (if b then counted (suc (count (test r.command.k) rs)) else find k m)
            ≡ counted (if b then suc (count (test k) rs) else count (test k) rs)
      either true e =
          ap (λ (j : Key). counted (suc (count (test j) rs))) ((==ℤ_iff r.command.k k).0 e)
      either false e = h k

  module _ (d : Distinct rs) (member : Memᴰ r rs) where
    pub counts_left :
        ((k : Key) → test k r ≡ false)
        → (k : Key) → find k m ≡ counted (count (test k) (without r.id rs))
    counts_left none_of k = ground (arith, h k, none_of k, count-without (test k) r rs d member)

    pub counts_removed :
        ((k : Key) → test k r ≡ (r.command.k ==ℤ k))
        → length rs < int_max
        → (k : Key) → find k (decrease r.command.k m) ≡ counted (count (test k) (without r.id rs))
    counts_removed own room k =
        find-decrease r.command.k k (left r.command.k) m
          (h r.command.k ∙ ap counted (one r.command.k refl)) bound
        ∙ either (r.command.k ==ℤ k) refl
      where
        left : Key → ℕ
        left j = count (test j) (without r.id rs)

        one : (j : Key) → j ≡ r.command.k → count (test j) rs ≡ suc (left j)
        one j e =
            ground
              (arith, own j, ==ℤ_iff r.command.k j, sym e, count-without (test j) r rs d member)

        bound : left r.command.k < int_max
        bound = ground (arith, one r.command.k refl, count-length (test r.command.k) rs, room)

        either :
            (b : Bool)
            → (r.command.k ==ℤ k) ≡ b
            → (if b then counted (left r.command.k) else find k m) ≡ counted (left k)
        either true e = ap (λ (j : Key). counted (left j)) ((==ℤ_iff r.command.k k).0 e)
        either false e = ground (arith, h k, own k, e, count-without (test k) r rs d member)

pub length-without : (id : RequestId) (rs : List Request) → length (without id rs) ≤ length rs
length-without id [] = omega arith
length-without id (s ∷ rs) = ground (arith, length-without id rs)

pub any_left :
    (test : Request → Bool) (r : Request) (rs : List Request)
    → Distinct rs
    → Memᴰ r rs
    → test r ≡ false
    → any test rs ≡ any test (without r.id rs)
any_left test r rs d m off =
    ground
      (arith, count-any test rs, count-any test (without r.id rs), count-without test r rs d m, off)
