-- ===== src/Curp/Counts.antt =====
-- Counting and finding in lists, and the counts by key of curp/conflicts.go.
use consensus_arena.Prelude.{
  ℕ, zero, suc, ◌≡◌, ◌<◌, ◌≤◌, refl, ap, Bool, true, false, ◌&&◌, ◌||◌, List, [], ◌∷◌, Option, none,
  some, if◌then◌else◌, ltb, length, filterb, arith,
}
use consensus_arena.Prelude.Int.{
  int_eq, ℤ, pos, ◌+ℤ◌, ◌-ℤ◌, ◌==ℤ◌, int64, uint64, int64_of_word, int_max,
}
use consensus_arena.Prelude.Maps.{Map, find, find-put, find-delete}
use consensus_arena.State.{Key}
use consensus_arena.Curp.Conflicts.{count_at, increase, decrease}

module _ {ℓ} {A : Type ℓ} where
  abbrev pub any : (A → Bool) → List A → Bool
  any p [] = false
  any p (x ∷ xs) = p x || any p xs

  abbrev pub count : (A → Bool) → List A → ℕ
  count p [] = 0
  count p (x ∷ xs) = let rest = count p xs in if p x then suc rest else rest

  pub count-any : (p : A → Bool) (xs : List A) → ltb 0 (count p xs) ≡ any p xs
  count-any p [] = refl
  count-any p (x ∷ xs) = ground (arith, count-any p xs)

  pub count-length : (p : A → Bool) (xs : List A) → count p xs ≤ length xs
  count-length p [] = omega arith
  count-length p (x ∷ xs) = ground (arith, count-length p xs)

  pub any-or : (p q : A → Bool) (xs : List A) → any (λ x. p x || q x) xs ≡ (any p xs || any q xs)
  any-or p q [] = refl
  any-or p q (x ∷ xs) = ground (arith, any-or p q xs)

  pub any_ext : (p q : A → Bool) (xs : List A) → ((x : A) → p x ≡ q x) → any p xs ≡ any q xs
  any_ext p q [] h = refl
  any_ext p q (x ∷ xs) h = ground (arith, h x, any_ext p q xs h)

  pub any_mono :
      (p q : A → Bool) (xs : List A)
      → ((x : A) → p x ≡ true → q x ≡ true)
      → any p xs ≡ true
      → any q xs ≡ true
  any_mono p q [] h k = k
  any_mono p q (x ∷ xs) h k = ground (arith, h x, any_mono p q xs h, k)

  pub any-and_false :
      (p q : A → Bool) (xs : List A) → any p xs ≡ false → any (λ x. q x && p x) xs ≡ false
  any-and_false p q [] h = h
  any-and_false p q (x ∷ xs) h = ground (arith, any-and_false p q xs, h)

  pub any-filterb : (p q : A → Bool) (xs : List A) → any p (filterb q xs) ≡ any (λ x. q x && p x) xs
  any-filterb p q [] = refl
  any-filterb p q (x ∷ xs) = ground (arith, any-filterb p q xs)

-- What the map of counts has for a key that counts n.
abbrev pub counted : ℕ → Option ℤ
counted zero = none
counted (suc n) = some (pos (suc n))

int64-suc : (n : ℕ) → suc n < int_max → int64 (pos n +ℤ pos 1) ≡ pos (suc n)
unfolding int64 ◌+ℤ◌ uint64 int64_of_word
int64-suc n h = ground (arith, h)

int64-before : (n : ℕ) → n < int_max → int64 (pos (suc n) -ℤ pos 1) ≡ pos n
unfolding int64 ◌-ℤ◌ uint64 int64_of_word
int64-before n h = ground (arith, h)

count_at-counted : (k : Key) (n : ℕ) (m : Map Key ℤ) → find k m ≡ counted n → count_at k m ≡ pos n
count_at-counted k zero m h = ap (λ (o : Option ℤ). elim o [ none ↦ pos 0 | some n ↦ n ]) h
count_at-counted k (suc n) m h = ap (λ (o : Option ℤ). elim o [ none ↦ pos 0 | some n ↦ n ]) h

pub find-increase :
    (k j : Key) (n : ℕ) (m : Map Key ℤ)
    → find k m ≡ counted n
    → suc n < int_max
    → find j (increase k m) ≡ (if k ==ℤ j then counted (suc n) else find j m)
unfolding increase
find-increase k j n m h bound =
    rw (count_at-counted k n m h, int64-suc n bound) (find-put k j (pos (suc n)) m)

suc_nonzero : (n : ℕ) → (pos (suc n) ==ℤ pos 0) ≡ false
suc_nonzero n = ground arith

pub find-decrease :
    (k j : Key) (n : ℕ) (m : Map Key ℤ)
    → find k m ≡ counted (suc n)
    → n < int_max
    → find j (decrease k m) ≡ (if k ==ℤ j then counted n else find j m)
unfolding decrease
find-decrease k j zero m h bound =
    rw (count_at-counted k 1 m h, int64-before 0 bound) (find-delete k j m)
find-decrease k j (suc n) m h bound =
    rw (count_at-counted k (suc (suc n)) m h, int64-before (suc n) bound, suc_nonzero n)
      (find-put k j (pos (suc n)) m)
