-- ===== src/ReplicaSet.antt =====
-- replicaset/set.go. A `Set` is the uint64 that Go stores, and an ID is a Go int, so it can be
-- negative. `none` is a panic.
pub mod Members
pub mod Quorums
pub mod Iteration
use Prim.Native.Nat.{bit_and, bit_or}
use consensus_arena.Prelude.{
  ℕ, zero, suc, ◌+◌, ◌-◌, ◌*◌, ◌/◌, ◌%◌, ◌^◌, ◌<◌, Bool, true, false, not, ◌&&◌, ◌||◌, List, [],
  ◌∷◌, Option, none, some, ltb, ◌==◌, if◌then◌else◌,
}
use consensus_arena.Prelude.Int.{ℤ, pos, negsuc, pos_part, ltb_ℤ, leb_ℤ, word_mod}
use consensus_arena.Prelude.Bits.{ones}

abbrev pub Set : Type 0
Set = ℕ

abbrev pub max_size : ℕ
max_size = 64

-- id < 0 || id >= MaxSize
abbrev pub is_outside : ℤ → Bool
is_outside id = ltb_ℤ id (pos 0) || leb_ℤ (pos max_size) id

-- Set(1) << uint(id), for an ID that is not outside.
abbrev pub singleton : ℤ → Set
singleton id = 2 ^ pos_part id

unfoldable pub with : Set → ℤ → Set
with s id = if is_outside id then s else bit_or s (singleton id)

unfoldable pub add : Set → ℤ → Set × Bool
unfolding with
add before id = let s = with before id in (s, not (s == before))

-- The loop of `New` over the set built so far.
unfoldable pub new_loop : Set → List ℤ → Option Set
unfolding add
new_loop s [] = some s
new_loop s (id ∷ ids) = elim (is_outside id) [ true ↦ none | false ↦ new_loop (add s id).0 ids ]

unfoldable pub new : List ℤ → Option Set
unfolding new_loop
new ids = new_loop 0 ids

-- ^Set(0) >> uint(MaxSize-size)
unfoldable pub all : ℤ → Option Set
all size =
    if ltb_ℤ size (pos 0) || ltb_ℤ (pos max_size) size
    then none
    else some ((word_mod - 1) / 2 ^ (max_size - pos_part size))

-- a &^ b: the digits of `a` that `b` lacks.
abbrev pub and_not : ℕ → ℕ → ℕ
and_not a b = a - bit_and a b

unfoldable pub remove : Set → ℤ → Set
remove s id = if is_outside id then s else and_not s (singleton id)

unfoldable pub contains : Set → ℤ → Bool
contains s id = not (is_outside id) && not (bit_and s (singleton id) == 0)

-- bits.OnesCount64
unfoldable pub size : Set → ℕ
size s = ones max_size s

unfoldable pub union : Set → Set → Set
union s other = bit_or s other

unfoldable pub intersection : Set → Set → Set
intersection s other = bit_and s other

unfoldable pub covers : Set → Set → Bool
covers s other = bit_and s other == other

unfoldable pub equal : Set → Set → Bool
equal s other = s == other

-- bits.TrailingZeros64 of a word that is not 0, at most `fuel` digits deep.
unfoldable pub trailing_zeros : ℕ → ℕ → ℕ
trailing_zeros zero s = 0
trailing_zeros (suc fuel) s = elim (s % 2 == 0) [
  | true ↦ suc (trailing_zeros fuel (s / 2))
  | false ↦ 0
]

-- The loop of `Range`, with the callback's state passed along. A set has at most 64 rounds.
unfoldable pub range_loop {ℓ} : {S : Type ℓ} → ℕ → (ℤ → S → S × Bool) → Set → S → S
unfolding trailing_zeros
range_loop zero visit s st = st
range_loop (suc fuel) visit s st = elim (s == 0) [
  | true ↦ st
  | false ↦
      let (st', more) = visit (pos (trailing_zeros max_size s)) st in
      let rest = range_loop fuel visit (bit_and s (s - 1)) st' in if more then rest else st'
]

unfoldable pub range {ℓ} : {S : Type ℓ} → Set → (ℤ → S → S × Bool) → S → S
range s visit st = range_loop max_size visit s st
