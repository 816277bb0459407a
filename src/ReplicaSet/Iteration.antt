-- ===== src/ReplicaSet/Iteration.antt =====
-- `Range` of replicaset/set.go visits the members in ascending order.
use Prim.Native.Nat.{bit_and}
use native.Mathlib.Decide.{ℕ_discrete}
use native.Mathlib.Nat.{div-div-eq-div-mul, pow-suc}
use consensus_arena.Prelude.{
  ℕ, zero, suc, ◌+◌, ◌-◌, ◌/◌, ◌%◌, ◌^◌, ◌≤◌, ◌<◌, ◌≡◌, refl, ap, ◌∙◌, ◌≢◌, Bool, List, [], ◌∷◌,
  ◌==◌, if◌then◌else◌, filterb, length, arith,
}
use consensus_arena.Prelude.Int.{ℤ, pos}
use consensus_arena.Prelude.Bits.{bit-div, bit_and-le, bit_and_step, bit_and_self}
use consensus_arena.ReplicaSet.{Set, contains, trailing_zeros, range_loop, range}
use consensus_arena.ReplicaSet.Members.{IsWord, contains-bit}

-- off, off + 1, ..., k of them
abbrev pub ids_from : ℕ → ℕ → List ℤ
ids_from zero off = []
ids_from (suc k) off = pos off ∷ ids_from k (suc off)

-- The members in ascending order.
abbrev pub members : Set → List ℤ
members s = filterb (contains s) (ids_from 64 0)

-- Visiting a list until the callback returns false.
pub visit_all {ℓ} : {S : Type ℓ} → (ℤ → S → S × Bool) → List ℤ → S → S
visit_all visit [] st = st
visit_all visit (id ∷ ids) st =
    let (st', more) = visit id st in
    let rest = visit_all visit ids st' in if more then rest else st'

-- The places of the ones, counted from `off`.
digits_at : ℕ → ℕ → ℕ → List ℤ
digits_at zero off s = []
digits_at (suc k) off s =
    let rest = digits_at k (suc off) (s / 2) in if s % 2 == 1 then pos off ∷ rest else rest

-- `s & (s - 1)` by the parity of `s`.
drop_odd : (s : ℕ) → s % 2 ≡ 1 → (bit_and s (s - 1) / 2 ≡ s / 2) × (bit_and s (s - 1) % 2 ≡ 0)
drop_odd s p = omega (
  arith,
  bit_and_step s (s - 1),
  ap (bit_and (s / 2)) {x = (s - 1) / 2} {y = s / 2} (omega arith),
  bit_and_self (s / 2) (s / 2) (omega arith),
)

drop_even :
    (s : ℕ)
    → 0 < s
    → s % 2 ≡ 0
    → (bit_and s (s - 1) / 2 ≡ bit_and (s / 2) (s / 2 - 1)) × (bit_and s (s - 1) % 2 ≡ 0)
drop_even s h p = omega (
  arith,
  bit_and_step s (s - 1),
  ap (bit_and (s / 2)) {x = (s - 1) / 2} {y = s / 2 - 1} (omega arith),
)

-- `s & (s - 1)` drops the lowest one, which stands at `trailing_zeros`.
digits_at_step :
    (k off s : ℕ)
    → 0 < s
    → s < 2 ^ k
    → digits_at k off s ≡ pos (off + trailing_zeros k s) ∷ digits_at k off (bit_and s (s - 1))
unfolding digits_at trailing_zeros
digits_at_step zero off s p h = absurd (omega arith)
digits_at_step (suc k) off s p h = elim (ℕ_discrete (s % 2) 1) [
  | yes odd ↦ ground (arith, drop_odd s odd, ap (digits_at k (suc off)) (drop_odd s odd).0)
  | no even ↦
      let facts = drop_even s p (omega arith) in
      let rest = digits_at_step k (suc off) (s / 2) (omega arith) (omega (arith, pow-suc 2 k)) in
      ground (arith, facts, rest, ap (digits_at k (suc off)) facts.0)
]

digits_at-zero : (k off : ℕ) → digits_at k off 0 ≡ []
unfolding digits_at
digits_at-zero zero off = refl
digits_at-zero (suc k) off = digits_at-zero k (suc off)

length-digits_at : (k off s : ℕ) → length (digits_at k off s) ≤ k
unfolding digits_at
length-digits_at zero off s = omega arith
length-digits_at (suc k) off s = ground (arith, length-digits_at k (suc off) (s / 2))

first_digit :
    (s : Set)
    → IsWord s
    → s ≢ 0
    → digits_at 64 0 s ≡ pos (trailing_zeros 64 s) ∷ digits_at 64 0 (bit_and s (s - 1))
first_digit s w h =
    digits_at_step 64 0 s (omega arith) w
    ∙ ap (λ (i : ℕ). pos i ∷ digits_at 64 0 (bit_and s (s - 1))) (omega arith)

-- With a round for each member the loop ends by its own test.
range_loop_lem {ℓ} :
    {S : Type ℓ} (fuel : ℕ) (visit : ℤ → S → S × Bool) (s : Set) (st : S)
    → IsWord s
    → length (digits_at 64 0 s) ≤ fuel
    → range_loop fuel visit s st ≡ visit_all visit (digits_at 64 0 s) st
unfolding range_loop visit_all
range_loop_lem zero visit s st w h = elim (ℕ_discrete s 0) [
  | yes e ↦ rw (e, digits_at-zero 64 0) refl
  | no e ↦ absurd (omega (arith, ap length (first_digit s w e)))
]
range_loop_lem (suc fuel) visit s st w h = elim (ℕ_discrete s 0) [
  | yes e ↦ rw (e, digits_at-zero 64 0) refl
  | no e ↦
      let next = (visit (pos (trailing_zeros 64 s)) st).0 in
      let rest =
        range_loop_lem fuel visit (bit_and s (s - 1)) next (omega (arith, bit_and-le s (s - 1)))
          (omega (arith, ap length (first_digit s w e))) in
      rw (first_digit s w e) (ground (arith, rest))
]

digits_at-members :
    (k off s : ℕ)
    → off + k ≡ 64
    → digits_at k off (s / 2 ^ off) ≡ filterb (contains s) (ids_from k off)
unfolding digits_at
digits_at-members zero off s h = refl
digits_at-members (suc k) off s h = ground (
  arith,
  contains-bit s off,
  bit-div s off,
  div-div-eq-div-mul s (2 ^ off) 2,
  digits_at-members k (suc off) s (omega arith),
  ap (λ (p : ℕ). digits_at k (suc off) (s / p)) (pow-suc 2 off),
)

-- `Range` calls the visitor on each member once, in ascending order, until it returns false.
pub range_lem {ℓ} :
    {S : Type ℓ} (s : Set) (visit : ℤ → S → S × Bool) (st : S)
    → IsWord s
    → range s visit st ≡ visit_all visit (members s) st
unfolding range
range_lem s visit st w =
    range_loop_lem 64 visit s st w (length-digits_at 64 0 s)
    ∙ ap (λ (ids : List ℤ). visit_all visit ids st) ascending
  where
    ascending : digits_at 64 0 s ≡ members s
    ascending = ap (digits_at 64 0) {y = s / 2 ^ 0} (omega arith) ∙ digits_at-members 64 0 s refl
