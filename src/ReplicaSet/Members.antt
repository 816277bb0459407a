-- ===== src/ReplicaSet/Members.antt =====
-- What the operations of replicaset/set.go do to the members of a set.
use Prim.Native.Nat.{bit_and, bit_or}
use native.Mathlib.Decide.{ℕ_discrete}
use native.Mathlib.Nat.{pow-le-pow_right, one-le-pow}
use consensus_arena.Prelude.{
  ℕ, zero, suc, ◌*◌, ◌^◌, ◌≤◌, ◌<◌, ◌≡◌, ap, ◌↔◌, true, false, not, ◌&&◌, ◌||◌, ltb, ◌==◌,
  if◌then◌else◌, arith, ==_iff, Bool, Bool-cases, List, [], ◌∷◌, some, inl, inr, ◌∙◌, refl,
}
use consensus_arena.Prelude.Int.{ℤ, pos, negsuc, ◌==ℤ◌, ==ℤ_iff, word_mod}
use consensus_arena.Prelude.Bits.{
  bit, bit-le-one, bit-bit_and, bit-bit_or, bit-pow_self, bit-pow_ne, bit_and-pow, eq_of_bits,
  bit_or-lt, bit_and-le, bit-and_not,
}
use consensus_arena.ReplicaSet.{
  Set, is_outside, with, add, and_not, remove, contains, union, intersection, covers, new_loop, new,
}

-- A value of Go's uint64.
abbrev pub IsWord : Set → Type 0
IsWord s = s < word_mod

pos_of_digit : (d p : ℕ) → 1 ≤ p → d ≤ 1 → not (d * p == 0) ≡ (d == 1)
pos_of_digit zero p h k = ground arith
pos_of_digit (suc zero) p h k = ground arith
pos_of_digit (suc (suc d)) p h k = absurd (omega arith)

-- A membership test reads one digit.
pub contains-bit : (s i : ℕ) → i < 64 → contains s (pos i) ≡ (bit s i == 1)
unfolding contains
contains-bit s i h =
    ground (arith, bit_and-pow i s, pos_of_digit (bit s i) (2 ^ i), one-le-pow i 2, bit-le-one s i)

pub contains-negsuc : (s i : ℕ) → contains s (negsuc i) ≡ false
unfolding contains
contains-negsuc s i = ground arith

pub contains_above : (s i : ℕ) → 64 ≤ i → contains s (pos i) ≡ false
unfolding contains
contains_above s i h = ground arith

-- A membership test at any ID that is not negative.
contains-pos : (s i : ℕ) → contains s (pos i) ≡ (ltb i 64 && bit s i == 1)
contains-pos s i = ground (arith, contains-bit s i, contains_above s i)

bit-pow : (i j : ℕ) → bit (2 ^ i) j ≡ (if i == j then 1 else 0)
bit-pow i j = elim (ℕ_discrete i j) [
  | yes e ↦ rw e (ground (arith, bit-pow_self j))
  | no e ↦ ground (arith, bit-pow_ne i j e)
]

digit_with : (s i j : ℕ) → (bit (bit_or s (2 ^ i)) j == 1) ≡ (bit s j == 1 || i == j)
digit_with s i j = ground (arith, bit-bit_or s (2 ^ i) j, bit-pow i j, bit-le-one s j)

-- `With` adds the ID if it is valid, and changes no other membership.
pub contains-with :
    (s : Set) (id j : ℤ)
    → contains (with s id) j ≡ (contains s j || (not (is_outside id) && id ==ℤ j))
unfolding with
contains-with s (negsuc i) (pos j) = ground arith
contains-with s (negsuc i) (negsuc j) = ground (arith, contains-negsuc s j)
contains-with s (pos i) (negsuc j) =
    ground (arith, contains-negsuc s j, contains-negsuc (bit_or s (2 ^ i)) j)
contains-with s (pos i) (pos j) =
    ground (arith, contains-pos s j, contains-pos (bit_or s (2 ^ i)) j, digit_with s i j)

pow-lt-word : (i : ℕ) → i < 64 → 2 ^ i < word_mod
pow-lt-word i h =
    omega (arith, pow-le-pow_right {n = 2} (omega arith) {i = i} {j = 63} (omega arith))

pub with-IsWord : (s : Set) (id : ℤ) → IsWord s → IsWord (with s id)
unfolding with
with-IsWord s (negsuc i) h = ground arith
with-IsWord s (pos i) h = ground (arith, bit_or-lt 64 s (2 ^ i) h, pow-lt-word i)

-- Two words with the same members are the same word.
pub eq_of_contains :
    (s t : Set) → IsWord s → IsWord t → ((id : ℤ) → contains s id ≡ contains t id) → s ≡ t
eq_of_contains s t p q h = eq_of_bits 64 s t p q (λ i lt.
    ground (arith, h (pos i), contains-bit s i, contains-bit t i, bit-le-one s i, bit-le-one t i))

with_member : (s : Set) (id : ℤ) → IsWord s → contains s id ≡ true → with s id ≡ s
with_member s id h m =
    eq_of_contains (with s id) s (with-IsWord s id h) h
      (λ j. ground (arith, contains-with s id j, ==ℤ_iff id j))

with_new : (s : Set) (id : ℤ) → is_outside id ≡ false → with s id ≡ s → contains s id ≡ true
with_new s id h e =
    ground (arith, contains-with s id id, ==ℤ_iff id id, ap (λ (t : Set). contains t id) e)

-- `Add` reports whether the ID was new: valid, and not a member before.
pub add-is_new :
    (s : Set) (id : ℤ) → IsWord s → (add s id).1 ≡ (not (is_outside id) && not (contains s id))
unfolding add with
add-is_new s id h = ground (arith, with_member s id h, with_new s id)

pub contains-union :
    (s t : Set) (id : ℤ) → contains (union s t) id ≡ (contains s id || contains t id)
unfolding union
contains-union s t (negsuc i) =
    ground (arith, contains-negsuc s i, contains-negsuc t i, contains-negsuc (bit_or s t) i)
contains-union s t (pos i) = ground (
  arith,
  contains-pos s i,
  contains-pos t i,
  contains-pos (bit_or s t) i,
  bit-bit_or s t i,
  bit-le-one s i,
  bit-le-one t i,
)

pub contains-intersection :
    (s t : Set) (id : ℤ) → contains (intersection s t) id ≡ (contains s id && contains t id)
unfolding intersection
contains-intersection s t (negsuc i) =
    ground (arith, contains-negsuc s i, contains-negsuc t i, contains-negsuc (bit_and s t) i)
contains-intersection s t (pos i) = ground (
  arith,
  contains-pos s i,
  contains-pos t i,
  contains-pos (bit_and s t) i,
  bit-bit_and s t i,
  bit-le-one s i,
  bit-le-one t i,
)

-- `Covers` decides inclusion.
pub covers_iff :
    (s t : Set)
    → IsWord s
    → IsWord t
    → (covers s t ≡ true) ↔ ((id : ℤ) → contains t id ≡ true → contains s id ≡ true)
unfolding covers intersection
covers_iff s t p q = (
  λ h id m. ground (arith, ap (λ (u : Set). contains u id) (h' h), contains-intersection s t id),
  λ h. (==_iff (bit_and s t) t).1 (
      eq_of_contains (bit_and s t) t (omega (arith, bit_and-le s t)) q
        (λ id. ground (arith, contains-intersection s t id, h id))),
)
  where
    h' : (bit_and s t == t) ≡ true → bit_and s t ≡ t
    h' = (==_iff (bit_and s t) t).0

digit_remove : (s i j : ℕ) → (bit (and_not s (2 ^ i)) j == 1) ≡ (bit s j == 1 && not (i == j))
digit_remove s i j = ground (arith, bit-and_not s (2 ^ i) j, bit-pow i j, bit-le-one s j)

-- `Remove` takes out the ID it is given and changes no other membership.
pub contains-remove :
    (s : Set) (id j : ℤ) → contains (remove s id) j ≡ (contains s j && not (id ==ℤ j))
unfolding remove
contains-remove s (negsuc i) (pos j) = ground arith
contains-remove s (negsuc i) (negsuc j) = ground (arith, contains-negsuc s j)
contains-remove s (pos i) (negsuc j) =
    ground (arith, contains-negsuc s j, contains-negsuc (and_not s (2 ^ i)) j)
contains-remove s (pos i) (pos j) =
    ground (arith, contains-pos s j, contains-pos (and_not s (2 ^ i)) j, digit_remove s i j)

-- Whether a list names the ID.
abbrev pub names_id : ℤ → List ℤ → Bool
names_id id [] = false
names_id id (j ∷ ids) = j ==ℤ id || names_id id ids

contains-new_loop :
    (ids : List ℤ) (before s : Set) (id : ℤ)
    → new_loop before ids ≡ some s
    → contains s id ≡ (contains before id || names_id id ids)
unfolding new_loop add
contains-new_loop [] before s id h = ground (arith, h)
contains-new_loop (j ∷ ids) before s id h = elim (Bool-cases (is_outside j)) [
  | inl out ↦ ground (arith, h, out)
  | inr inside ↦
      contains-new_loop ids (with before j) s id (ground (arith, h, inside))
      ∙ ground (arith, contains-with before j id, inside)
]

bit-zero : (i : ℕ) → bit 0 i ≡ 0
unfolding bit
bit-zero zero = refl
bit-zero (suc i) = bit-zero i

pub contains-empty : (id : ℤ) → contains 0 id ≡ false
contains-empty (pos i) = ground (arith, contains-pos 0 i, bit-zero i)
contains-empty (negsuc i) = contains-negsuc 0 i

-- A set that `New` makes of a list of IDs holds exactly the IDs of the list.
pub contains-new :
    (ids : List ℤ) (s : Set) (id : ℤ) → new ids ≡ some s → contains s id ≡ names_id id ids
unfolding new
contains-new ids s id h = contains-new_loop ids 0 s id h ∙ ground (arith, contains-empty id)
