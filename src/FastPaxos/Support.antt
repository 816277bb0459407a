-- ===== src/FastPaxos/Support.antt =====
-- How many replicas report a request: the counts of `selectValue` in fastpaxos/recovery.go.
use Prim.Native.Nat.{bit_or}
use mathlib.Core.List.{Memᴰ}
use native.Mathlib.Nat.{pow-le-pow_right}
use native.Mathlib.Decide.{ℕ_discrete}
use consensus_arena.Prelude.{
  ℕ, zero, suc, ◌%◌, ◌/◌, ◌^◌, ◌≤◌, ◌<◌, ◌≡◌, refl, ap, sym, subst, ◌∙◌, ◌⊎◌, inl, inr, false, [],
  ◌∷◌, if◌then◌else◌, arith, All, Bool-cases,
}
use consensus_arena.Prelude.Int.{word_mod}
use consensus_arena.Prelude.Maps.{Map}
use consensus_arena.Prelude.Bits.{bit, bit-bit_or, bit-le-one, bit-pow_self, bit-pow_ne, ones}
use consensus_arena.Paxos.Defs.{RequestId, id_beq, id_beq_iff}
use consensus_arena.ReplicaSet.{Set}
use consensus_arena.FastPaxos.Defs.{Entry}
use consensus_arena.FastPaxos.Selected.{reporters}

pub ones_mono : (k a b : ℕ) → ((i : ℕ) → i < k → bit a i ≡ 1 → bit b i ≡ 1) → ones k a ≤ ones k b
unfolding ones bit
ones_mono zero a b h = omega arith
ones_mono (suc k) a b h = ground (
  arith,
  h 0 (omega arith),
  ones_mono k (a / 2) (b / 2) (λ i lt e. h (suc i) (omega arith) e),
  bit-le-one a 0,
  bit-le-one b 0,
)

pow-word : (i : ℕ) → i < 64 → 2 ^ i % word_mod ≡ 2 ^ i
pow-word i h = omega (arith, pow-le-pow_right {n = 2} (omega arith) {i = i} {j = 63} (omega arith))

-- One more report adds its replica, if it is for the request.
abbrev with_report : RequestId → ℕ → Entry → Set → Set
with_report id j d acc = if id_beq d.value.id id then bit_or acc (2 ^ j % word_mod) else acc

bit-with_report_same :
    (id : RequestId) (i j : ℕ) (d : Entry) (acc : Set)
    → i ≡ j
    → i < 64
    → d.value.id ≡ id
    → bit (with_report id j d acc) i ≡ 1
bit-with_report_same id i j d acc ij lt same =
    subst (λ k. bit (with_report id k d acc) i ≡ 1) ij
      (ground (
        arith,
        bit-bit_or acc (2 ^ i % word_mod) i,
        ap (λ (p : ℕ). bit p i) (pow-word i lt),
        bit-pow_self i,
        id_beq_iff d.value.id id,
        bit-le-one acc i,
      ))

bit-with_report_other :
    (id : RequestId) (i j : ℕ) (d : Entry) (acc : Set)
    → (i ≡ j → ⊥)
    → j < 64
    → bit (with_report id j d acc) i ≡ bit acc i
bit-with_report_other id i j d acc ne lt = ground (
  arith,
  bit-bit_or acc (2 ^ j % word_mod) i,
  ap (λ (p : ℕ). bit p i) (pow-word j lt),
  bit-pow_ne j i (λ e. ne (sym e)),
)

bit-with_report_unlike :
    (id : RequestId) (i j : ℕ) (d : Entry) (acc : Set)
    → id_beq d.value.id id ≡ false
    → bit (with_report id j d acc) i ≡ bit acc i
bit-with_report_unlike id i j d acc ne = rw ne refl

pub reporters_keep :
    (id : RequestId) (reports : Map ℕ Entry) (acc : Set) (i : ℕ)
    → bit acc i ≡ 1
    → bit (reporters id reports acc) i ≡ 1
reporters_keep id [] acc i h = h
reporters_keep id ((j, e) ∷ reports) acc i h =
    reporters_keep id reports _ i
      (ground (arith, bit-bit_or acc (2 ^ j % word_mod) i, bit-le-one (2 ^ j % word_mod) i))

pub reporters_complete :
    (id : RequestId) (reports : Map ℕ Entry) (acc : Set) (i : ℕ) (e : Entry)
    → i < 64
    → Memᴰ (i, e) reports
    → e.value.id ≡ id
    → bit (reporters id reports acc) i ≡ 1
reporters_complete id [] acc i e lt m same = elim m [ ]
reporters_complete id ((j, d) ∷ reports) acc i e lt (Memᴰ.tail m) same =
    reporters_complete id reports _ i e lt m same
reporters_complete id ((j, d) ∷ reports) acc i e lt (Memᴰ.head q) same =
    reporters_keep id reports _ i (
      bit-with_report_same id i j d acc (ap (λ (x : ℕ × Entry). x.0) q) lt
        (ap (λ (x : ℕ × Entry). x.1.value.id) (sym q) ∙ same))

pub reporters_sound :
    (id : RequestId) (reports : Map ℕ Entry) (acc : Set) (i : ℕ)
    → All (λ (x : ℕ × Entry). x.0 < 64) reports
    → bit (reporters id reports acc) i ≡ 1
    → (bit acc i ≡ 1) ⊎ ((e : Entry) × Memᴰ (i, e) reports × (e.value.id ≡ id))
reporters_sound id [] acc i lt h = inl h
reporters_sound id ((j, d) ∷ reports) acc i lt h =
    elim (reporters_sound id reports
      (if id_beq d.value.id id then bit_or acc (2 ^ j % word_mod) else acc) i lt.1 h) [
        | inr (e, m, same) ↦ inr (e, Memᴰ.tail m, same)
        | inl now ↦ elim (Bool-cases (id_beq d.value.id id)) [
          | inr unlike ↦ inl (sym (bit-with_report_unlike id i j d acc unlike) ∙ now)
          | inl alike ↦ elim (ℕ_discrete i j) [
            | yes ij ↦
                inr (d, Memᴰ.head (ap (λ (k : ℕ). (k, d)) ij), (id_beq_iff d.value.id id).0 alike)
            | no ne ↦ inl (sym (bit-with_report_other id i j d acc ne lt.0) ∙ now)
          ]
        ]
      ]
