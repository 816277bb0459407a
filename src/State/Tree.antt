-- ===== src/State/Tree.antt =====
-- The ordered map of state/state.go, which a package outside the repository implements
-- (gods/maps/treemap): its operations and documented behaviour, as an interface.
use native.Mathlib.Decide.{dec_lt}
use consensus_arena.Prelude.{
  ℕ, ◌≡◌, refl, ◌⊎◌, inl, inr, Bool, [], ◌∷◌, Option, none, some, if◌then◌else◌, All, length,
  filterb, arith,
}
use consensus_arena.Prelude.Int.{int_eq, ℤ, negsuc, ◌==ℤ◌, ==ℤ_iff, ◌<ℤ◌, eq_of_parts}
use consensus_arena.Prelude.Maps.{Map, find}
use consensus_arena.State.{Key, Value, key_comparator}

-- The keys rise by the comparator.
abbrev pub Ascending : (Key → Key → ℤ) → Map Key Value → Type 0
Ascending c [] = Unit
Ascending c (e ∷ m) = All (λ f. c e.0 f.0 ≡ negsuc 0) m × Ascending c m

-- The trees of `treemap.NewWith(comparator)`. `Select` keeps the entries that a test accepts, and
-- an iterator goes through the entries in key order.
pub record TreeMap (comparator : Key → Key → ℤ) : Type 1 where
  pub Tree : Type 0
  pub empty : Tree
  pub insert : Key → Value → Tree → Tree
  pub get : Key → Tree → Option Value
  pub size : Tree → ℕ
  pub select : (Key → Value → Bool) → Tree → Tree
  pub entries : Tree → Map Key Value
  pub entries-empty : entries empty ≡ []
  pub entries-ascending : (t : Tree) → Ascending comparator (entries t)
  pub entries-select :
      (p : Key → Value → Bool) (t : Tree)
      → entries (select p t) ≡ filterb (λ e. p e.0 e.1) (entries t)
  pub get-entries : (k : Key) (t : Tree) → get k t ≡ find k (entries t)
  pub get-insert :
      (k j : Key) (v : Value) (t : Tree)
      → get j (insert k v t) ≡ (if k ==ℤ j then some v else get j t)
  pub size-entries : (t : Tree) → size t ≡ length (entries t)

-- `key_comparator` is the order of the integers.
pub key_comparator_lt : (a b : Key) → key_comparator a b ≡ negsuc 0 → a <ℤ b
unfolding key_comparator
key_comparator_lt a b h = ground arith

pub lt_key_comparator : (a b : Key) → a <ℤ b → key_comparator a b ≡ negsuc 0
unfolding key_comparator
lt_key_comparator a b h = ground arith

-- The keys above a bound.
abbrev Above : Key → Map Key Value → Type 0
Above k m = All (λ f. key_comparator k f.0 ≡ negsuc 0) m

find-Above : (k j : Key) (m : Map Key Value) → Above k m → (j ≡ k) ⊎ (j <ℤ k) → find j m ≡ none
unfolding find
find-Above k j [] a h = refl
find-Above k j ((i, v) ∷ m) a h =
    ground (arith, key_comparator_lt k i a.0, ==ℤ_iff i j, find-Above k j m a.1 h)

abbrev dec_lt_ℤ : (a b : ℤ) → Dec (a <ℤ b)
dec_lt_ℤ a b = dec_lt _ _

ℤ-trichotomy : (a b : ℤ) → (a ≡ b) ⊎ (a <ℤ b) ⊎ (b <ℤ a)
ℤ-trichotomy a b = elim (dec_lt_ℤ a b) [
  | yes p ↦ inr (inl p)
  | no p ↦ elim (dec_lt_ℤ b a) [ yes q ↦ inr (inr q) | no q ↦ inl (eq_of_parts a b (omega arith)) ]
]

-- The least key of an ascending list is not found where all keys are above it.
head_agrees :
    (i j : Key) (v w : Value) (m n : Map Key Value)
    → Above i m
    → Above j n
    → ((k : Key) → find k ((i, v) ∷ m) ≡ find k ((j, w) ∷ n))
    → (i ≡ j) × (v ≡ w)
unfolding find
head_agrees i j v w m n a b h = elim (ℤ-trichotomy i j) [
  | inl e ↦ ground (arith, h i, ==ℤ_iff i i, ==ℤ_iff j i)
  | inr (inl below) ↦ ground (arith, h i, ==ℤ_iff i i, ==ℤ_iff j i, find-Above j i n b (inr below))
  | inr (inr above) ↦ ground (arith, h j, ==ℤ_iff j j, ==ℤ_iff i j, find-Above i j m a (inr above))
]

tail_agrees :
    (i : Key) (v : Value) (m n : Map Key Value)
    → Above i m
    → Above i n
    → ((k : Key) → find k ((i, v) ∷ m) ≡ find k ((i, v) ∷ n))
    → (k : Key) → find k m ≡ find k n
unfolding find
tail_agrees i v m n a b h k =
    ground (arith, h k, ==ℤ_iff i k, find-Above i k m a, find-Above i k n b)

-- An ascending list is settled by what is found in it.
pub eq_of_find :
    (m n : Map Key Value)
    → Ascending key_comparator m
    → Ascending key_comparator n
    → ((k : Key) → find k m ≡ find k n)
    → m ≡ n
unfolding find
eq_of_find [] [] p q h = refl
eq_of_find [] ((j, w) ∷ n) p q h = ground (arith, h j, ==ℤ_iff j j)
eq_of_find ((i, v) ∷ m) [] p q h = ground (arith, h i, ==ℤ_iff i i)
eq_of_find ((i, v) ∷ m) ((j, w) ∷ n) p q h =
    let (e, d) = head_agrees i j v w m n p.0 q.0 h in
    let same =
      eq_of_find m n p.1 q.1 (tail_agrees i v m n p.0 (rw e q.0) (λ k. rw (← e, ← d) at (h k))) in
    ground (arith, same, e, d)
