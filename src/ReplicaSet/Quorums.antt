-- ===== src/ReplicaSet/Quorums.antt =====
-- Counting: a set of replicaset/set.go as a quorum of the replicas 0..n-1.
use Prim.Native.Nat.{bit_and, bit_or}
use native.Mathlib.Decide.{ℕ_discrete, dec_lt}
use consensus_arena.Prelude.{
  ℕ, zero, suc, ◌+◌, ◌-◌, ◌/◌, ◌^◌, ◌≤◌, ◌<◌, ◌≡◌, refl, Bool, true, ◌&&◌, ◌||◌, some, ltb, ◌==◌,
  arith,
}
use consensus_arena.Prelude.Int.{ℤ, pos, word_mod}
use consensus_arena.Prelude.Bits.{
  bit, bit-le-one, bit-bit_and, bit_above, bit_or-lt, ones-and-or, ones-le, ones_pos, bit-mask,
  ones-mask,
}
use consensus_arena.ReplicaSet.{Set, all, contains, size, union, intersection}
use consensus_arena.ReplicaSet.Members.{
  contains-bit, contains_above, contains-intersection, contains-union,
}

-- Every member is a replica 0..n-1.
abbrev pub IsAmong : ℕ → Set → Type 0
IsAmong n s = s < 2 ^ n

-- Inclusion and exclusion.
pub size-intersection-union :
    (s t : Set) → size (intersection s t) + size (union s t) ≡ size s + size t
unfolding size intersection union
size-intersection-union s t = ones-and-or 64 s t

pub size-intersection :
    (n : ℕ) (s t : Set) → IsAmong n s → IsAmong n t → size s + size t ≤ size (intersection s t) + n
unfolding size union
size-intersection n s t p q =
    omega (arith, size-intersection-union s t, ones-le 64 n (bit_or s t) (bit_or-lt n s t p q))

-- The intersection of two sets has exactly the members of both, their union those of either, and the
-- sizes of the two add up to the sizes of the sets. Of sets of the replicas 0..n-1, the intersection
-- has at least |s| + |t| - n members and the union at most n.
pub intersection_lem :
    (n : ℕ) (s t : Set)
    → IsAmong n s
    → IsAmong n t
    → ((id : ℤ) → contains (intersection s t) id ≡ (contains s id && contains t id))
      × ((id : ℤ) → contains (union s t) id ≡ (contains s id || contains t id))
      × (size (intersection s t) + size (union s t) ≡ size s + size t)
      × (size s + size t ≤ size (intersection s t) + n)
      × (size (union s t) ≤ n)
unfolding size union
intersection_lem n s t p q = (
  contains-intersection s t,
  contains-union s t,
  size-intersection-union s t,
  size-intersection n s t p q,
  ones-le 64 n (bit_or s t) (bit_or-lt n s t p q),
)

member : (n : ℕ) (s : Set) → n ≤ 64 → IsAmong n s → (i : ℕ) → bit s i ≡ 1 → i < n
member n s le h i e = elim (dec_lt i n) [
  | yes p ↦ p
  | no p ↦ absurd (omega (arith, bit_above n s i h (omega arith)))
]

-- A member of a set of replicas 0..n-1 is one of them.
pub contains-among :
    (n : ℕ) (s : Set) (i : ℕ) → n ≤ 64 → IsAmong n s → contains s (pos i) ≡ true → i < n
contains-among n s i le h m =
    member n s le h i (ground (arith, contains-bit s i, contains_above s i, bit-le-one s i))

-- Quorums that together outnumber the replicas share a replica.
pub quorums_meet :
    (n : ℕ) (s t : Set)
    → n ≤ 64
    → IsAmong n s
    → IsAmong n t
    → n < size s + size t
    → (id : ℕ) × (id < n) × (contains s (pos id) ≡ true) × (contains t (pos id) ≡ true)
unfolding size intersection
quorums_meet n s t le p q big =
    let (i, below, e) = ones_pos 64 (bit_and s t) (omega (arith, size-intersection n s t p q)) in
    (
      i,
      member n s le p i (omega (arith, bit-bit_and s t i, bit-le-one s i, bit-le-one t i)),
      ground (arith, contains-bit s i, bit-bit_and s t i, bit-le-one s i, bit-le-one t i),
      ground (arith, contains-bit t i, bit-bit_and s t i, bit-le-one s i, bit-le-one t i),
    )

all_masks : ℕ → Bool
all_masks zero = true
all_masks (suc n) = ((word_mod - 1) / 2 ^ (64 - n) == 2 ^ n - 1) && all_masks n

all_masks_sound : (k n : ℕ) → all_masks k ≡ true → n < k → (word_mod - 1) / 2 ^ (64 - n) ≡ 2 ^ n - 1
unfolding all_masks
all_masks_sound zero n h lt = absurd (omega arith)
all_masks_sound (suc k) n h lt = elim (ℕ_discrete n k) [
  | yes e ↦ rw e (ground arith)
  | no e ↦ ground (arith, all_masks_sound k n)
]

-- `All` of a membership up to 64 is the mask of its low digits.
pub all_mask : (n : ℕ) → n ≤ 64 → all (pos n) ≡ some (2 ^ n - 1)
unfolding all all_masks
all_mask n h = ground (arith, all_masks_sound 65 n refl)

all_inverse : (n : ℕ) (s : Set) → all (pos n) ≡ some s → (n ≤ 64) × (s ≡ 2 ^ n - 1)
all_inverse n s h = (le, ground (arith, all_mask n le))
  where
    le : n ≤ 64
    le = unfold all in ground arith

-- `All` of a membership that fits holds exactly the IDs 0..n-1, and n of them.
pub contains-all :
    (n : ℕ) (s : Set)
    → all (pos n) ≡ some s
    → (size s ≡ n) × ((i : ℕ) → contains s (pos i) ≡ ltb i n)
unfolding size
contains-all n s h =
    let (le, e) = all_inverse n s h in
    (
      rw e (ones-mask 64 n le),
      λ i.
          rw e (
            ground (arith, contains-bit (2 ^ n - 1) i, contains_above (2 ^ n - 1) i, bit-mask n i)),
    )
