-- ===== src/Prelude/Bits.antt =====
-- Bitwise operations on words at variables, digit by digit: `bit a i` is the i-th binary digit.
use Prim.Native.Nat.{
  ℕ, zero, suc, ◌+◌, ◌-◌, ◌*◌, ◌/◌, ◌%◌, ◌^◌, ◌≤◌, ◌<◌, min, max, bit_and, bit_or, digits,
  bit_and-bitwise, bit_or-bitwise,
}
use mathlib.Core.Path.{◌≡◌, refl, ap}
use native.Mathlib.Omega.{arith}
use native.Mathlib.Nat.{pow-suc, one-le-pow, div-div-eq-div-mul}
use native.Mathlib.Decide.{ℕ_discrete}
use consensus_arena.Prelude.Tests.{ltb, if◌then◌else◌}

-- `&` and `|` are given by one recursion on the digits, which reads its fuel only to stop: any two
-- amounts that reach the number of the left word give the same word.
module _ (base : ℕ → ℕ) (digit : ℕ → ℕ → ℕ) where
  spare_fuel : (x y i j : ℕ) → x ≤ i → x ≤ j → digits base digit i x y ≡ digits base digit j x y
  spare_fuel zero y zero zero reach_i reach_j = refl
  spare_fuel zero y zero (suc j) reach_i reach_j = refl
  spare_fuel zero y (suc i) zero reach_i reach_j = refl
  spare_fuel zero y (suc i) (suc j) reach_i reach_j = refl
  spare_fuel (suc x) y zero j reach_i reach_j = absurd (omega arith)
  spare_fuel (suc x) y (suc i) zero reach_i reach_j = absurd (omega arith)
  spare_fuel (suc x) y (suc i) (suc j) reach_i reach_j =
      ap (λ (high : ℕ). high * 2 + digit (suc x % 2) (y % 2))
        (spare_fuel (suc x / 2) (y / 2) i j (omega arith) (omega arith))

abbrev first_zero : ℕ → ℕ
first_zero y = 0

abbrev first_same : ℕ → ℕ
first_same y = y

-- One step of the recursion, in the form that the laws below use.
pub bit_and_step : (x y : ℕ) → bit_and x y ≡ bit_and (x / 2) (y / 2) * 2 + min (x % 2) (y % 2)
bit_and_step zero y = omega (arith, bit_and-bitwise 0 y, bit_and-bitwise 0 (y / 2))
bit_and_step (suc x) y =
    let half : ℕ = suc x / 2 in
    let fuel = spare_fuel first_zero min half (y / 2) x half (omega arith) (omega arith) in
    omega (arith, bit_and-bitwise half (y / 2), fuel, bit_and-bitwise (suc x) y)

pub bit_or_step : (x y : ℕ) → bit_or x y ≡ bit_or (x / 2) (y / 2) * 2 + max (x % 2) (y % 2)
bit_or_step zero y = omega (arith, bit_or-bitwise 0 y, bit_or-bitwise 0 (y / 2))
bit_or_step (suc x) y =
    let half : ℕ = suc x / 2 in
    let fuel = spare_fuel first_same max half (y / 2) x half (omega arith) (omega arith) in
    omega (arith, bit_or-bitwise half (y / 2), fuel, bit_or-bitwise (suc x) y)

-- The i-th digit.
unfoldable pub bit : ℕ → ℕ → ℕ
bit a zero = a % 2
bit a (suc i) = bit (a / 2) i

pub bit-le-one : (a i : ℕ) → bit a i ≤ 1
unfolding bit
bit-le-one a zero = omega arith
bit-le-one a (suc i) = bit-le-one (a / 2) i

halves_and : (a b : ℕ) → bit_and a b / 2 ≡ bit_and (a / 2) (b / 2)
halves_and a b = omega (arith, bit_and_step a b)

halves_or : (a b : ℕ) → bit_or a b / 2 ≡ bit_or (a / 2) (b / 2)
halves_or a b = omega (arith, bit_or_step a b)

pub bit-bit_and : (a b i : ℕ) → bit (bit_and a b) i ≡ min (bit a i) (bit b i)
unfolding bit
bit-bit_and a b zero = omega (arith, bit_and_step a b)
bit-bit_and a b (suc i) = rw (halves_and a b) (bit-bit_and (a / 2) (b / 2) i)

pub bit-bit_or : (a b i : ℕ) → bit (bit_or a b) i ≡ max (bit a i) (bit b i)
unfolding bit
bit-bit_or a b zero = omega (arith, bit_or_step a b)
bit-bit_or a b (suc i) = rw (halves_or a b) (bit-bit_or (a / 2) (b / 2) i)

half_pow : (i : ℕ) → 2 ^ suc i / 2 ≡ 2 ^ i
half_pow i = omega (arith, pow-suc 2 i)

pub bit-pow_self : (i : ℕ) → bit (2 ^ i) i ≡ 1
unfolding bit
bit-pow_self zero = refl
bit-pow_self (suc i) = rw (half_pow i) (bit-pow_self i)

bit-zero : (i : ℕ) → bit 0 i ≡ 0
unfolding bit
bit-zero zero = refl
bit-zero (suc i) = bit-zero i

pub bit-pow_ne : (i j : ℕ) → (i ≡ j → ⊥) → bit (2 ^ i) j ≡ 0
unfolding bit
bit-pow_ne zero zero h = absurd (h refl)
bit-pow_ne zero (suc j) h = bit-zero j
bit-pow_ne (suc i) zero h = omega (arith, pow-suc 2 i)
bit-pow_ne (suc i) (suc j) h = rw (half_pow i) (bit-pow_ne i j (λ e. h (ap suc e)))

bit_and_empty : (x k : ℕ) → x ≤ k → bit_and x 0 ≡ 0
bit_and_empty zero k h = bit_and-bitwise 0 0
bit_and_empty (suc x) zero h = absurd (omega arith)
bit_and_empty (suc x) (suc k) h =
    let rest = bit_and_empty (suc x / 2) k (omega arith) in
    omega (arith, rest, bit_and_step (suc x) 0)

bit_and-zero : (x : ℕ) → bit_and x 0 ≡ 0
bit_and-zero x = bit_and_empty x x (omega arith)

-- `a & (1 << i)` keeps the i-th digit in its place.
pub bit_and-pow : (i a : ℕ) → bit_and a (2 ^ i) ≡ bit a i * 2 ^ i
unfolding bit
bit_and-pow zero a = omega (arith, bit_and_step a 1, bit_and-zero (a / 2))
bit_and-pow (suc i) a = omega (
  arith,
  bit_and_step a (2 ^ suc i),
  ap (bit_and (a / 2)) (half_pow i),
  pow-suc 2 i,
  ap (λ (t : ℕ). bit (a / 2) i * t) (pow-suc 2 i),
  bit_and-pow i (a / 2),
)

-- A word of k digits is settled by its digits.
pub eq_of_bits : (k a b : ℕ) → a < 2 ^ k → b < 2 ^ k → ((i : ℕ) → i < k → bit a i ≡ bit b i) → a ≡ b
unfolding bit
eq_of_bits zero a b p q h = omega arith
eq_of_bits (suc k) a b p q h = omega (
  arith,
  h 0 (omega arith),
  pow-suc 2 k,
  eq_of_bits k (a / 2) (b / 2) (omega (arith, pow-suc 2 k)) (omega (arith, pow-suc 2 k))
      (λ i lt. h (suc i) (omega arith)),
)

pub bit_above : (k a i : ℕ) → a < 2 ^ k → k ≤ i → bit a i ≡ 0
unfolding bit
bit_above zero a i h le = let e : a ≡ 0 = omega arith in rw e (bit-zero i)
bit_above (suc k) a zero h le = absurd (omega arith)
bit_above (suc k) a (suc i) h le = bit_above k (a / 2) i (omega (arith, pow-suc 2 k)) (omega arith)

pub bit_or-lt : (k a b : ℕ) → a < 2 ^ k → b < 2 ^ k → bit_or a b < 2 ^ k
bit_or-lt zero a b p q =
    let e : a ≡ 0 = omega arith in let d : b ≡ 0 = omega arith in rw (e, d) (omega arith)
bit_or-lt (suc k) a b p q = omega (
  arith,
  pow-suc 2 k,
  bit_or_step a b,
  bit_or-lt k (a / 2) (b / 2) (omega (arith, pow-suc 2 k)) (omega (arith, pow-suc 2 k)),
)

bit_and-le_fuel : (n a b : ℕ) → a ≤ n → bit_and a b ≤ a
bit_and-le_fuel n zero b h = rw (bit_and-bitwise 0 b) (omega arith)
bit_and-le_fuel zero (suc a) b h = absurd (omega arith)
bit_and-le_fuel (suc n) (suc a) b h =
    omega (arith, bit_and_step (suc a) b, bit_and-le_fuel n (suc a / 2) (b / 2) (omega arith))

pub bit_and-le : (a b : ℕ) → bit_and a b ≤ a
bit_and-le a b = bit_and-le_fuel a a b (omega arith)

-- `a &^ b`, as a difference.
pub bit-and_not : (a b i : ℕ) → bit (a - bit_and a b) i ≡ bit a i - bit b i
unfolding bit
bit-and_not a b zero = omega (arith, bit_and_step a b, bit_and-le (a / 2) (b / 2))
bit-and_not a b (suc i) = rw halved (bit-and_not (a / 2) (b / 2) i)
  where
    halved : (a - bit_and a b) / 2 ≡ a / 2 - bit_and (a / 2) (b / 2)
    halved = omega (arith, bit_and_step a b, bit_and-le (a / 2) (b / 2))

-- The number of ones among the k low digits.
unfoldable pub ones : ℕ → ℕ → ℕ
ones zero a = 0
ones (suc k) a = a % 2 + ones k (a / 2)

pub ones-and-or : (k a b : ℕ) → ones k (bit_and a b) + ones k (bit_or a b) ≡ ones k a + ones k b
unfolding ones
ones-and-or zero a b = refl
ones-and-or (suc k) a b = omega (
  arith,
  bit_and_step a b,
  bit_or_step a b,
  ap (ones k) (halves_and a b),
  ap (ones k) (halves_or a b),
  ones-and-or k (a / 2) (b / 2),
)

-- A word below 2^n has at most n ones.
pub ones-le : (k n a : ℕ) → a < 2 ^ n → ones k a ≤ n
unfolding ones
ones-le zero n a h = omega arith
ones-le (suc k) zero a h = omega (arith, ones-le k zero (a / 2) (omega arith))
ones-le (suc k) (suc n) a h = omega (arith, ones-le k n (a / 2) (omega (arith, pow-suc 2 n)))

pub ones_pos : (k a : ℕ) → 0 < ones k a → (i : ℕ) × (i < k) × (bit a i ≡ 1)
unfolding ones bit
ones_pos zero a h = absurd (omega arith)
ones_pos (suc k) a h = elim (ℕ_discrete (a % 2) 1) [
  | yes e ↦ (0, omega arith, e)
  | no e ↦ let (i, lt, b) = ones_pos k (a / 2) (omega arith) in (suc i, omega arith, b)
]

-- 2^n - 1 has its n low digits set.
half_mask : (n : ℕ) → (2 ^ suc n - 1) / 2 ≡ 2 ^ n - 1
half_mask n = omega (arith, pow-suc 2 n, one-le-pow n 2)

pub bit-mask : (n i : ℕ) → bit (2 ^ n - 1) i ≡ (if ltb i n then 1 else 0)
unfolding bit
bit-mask zero i = rw (bit-zero i) (ground arith)
bit-mask (suc n) zero = ground (arith, pow-suc 2 n, one-le-pow n 2)
bit-mask (suc n) (suc i) = rw (half_mask n, bit-mask n i) (ground arith)

pub ones-zero : (k : ℕ) → ones k 0 ≡ 0
unfolding ones
ones-zero zero = refl
ones-zero (suc k) = omega (arith, ones-zero k)

pub ones-mask : (k n : ℕ) → n ≤ k → ones k (2 ^ n - 1) ≡ n
unfolding ones
ones-mask k zero h = ones-zero k
ones-mask zero (suc n) h = absurd (omega arith)
ones-mask (suc k) (suc n) h =
    omega
      (arith, pow-suc 2 n, one-le-pow n 2, ap (ones k) (half_mask n), ones-mask k n (omega arith))

pub bit_and_self : (n a : ℕ) → a ≤ n → bit_and a a ≡ a
bit_and_self n zero h = refl
bit_and_self zero (suc a) h = absurd (omega arith)
bit_and_self (suc n) (suc a) h =
    omega (arith, bit_and_step (suc a) (suc a), bit_and_self n (suc a / 2) (omega arith))

pub bit-div : (a i : ℕ) → bit a i ≡ a / 2 ^ i % 2
unfolding bit
bit-div a zero = omega arith
bit-div a (suc i) =
    rw (bit-div (a / 2) i, div-div-eq-div-mul a 2 (2 ^ i))
      (omega (arith, ap (λ (p : ℕ). a / p % 2) (regroup i)))
  where
    regroup : (j : ℕ) → 2 * 2 ^ j ≡ 2 ^ suc j
    regroup j = omega (arith, pow-suc 2 j)
