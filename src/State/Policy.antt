-- ===== src/State/Policy.antt =====
-- state/validation.go.
use consensus_arena.Prelude.{
  ℕ, ◌≤◌, ◌<◌, ◌++◌, none, some, ◌≢◌, ◌≡◌, Bool, true, false, not, ◌&&◌, ◌||◌, List, [], ◌∷◌, ltb,
  leb, ◌==◌, if◌then◌else◌, length, arith,
}
use consensus_arena.Prelude.Int.{ℤ, pos, ltb_ℤ, ◌==ℤ◌}
use consensus_arena.Prelude.Int.{IsInt64}
use consensus_arena.State.Tree.{TreeMap}
use consensus_arena.State.Store.{execute}
use consensus_arena.State.Wire.{marshal, unmarshal, unmarshal-marshal}
use consensus_arena.State.{Operation, Command, op_scan, key_comparator, le_uint64, conflict}

abbrev pub max_value_bytes : ℤ
max_value_bytes = pos 65535

pub record CommandPolicy : Type 0 where
  pub operations : List Operation
  pub max_value_bytes : ℤ

pub data Verdict : Type 0 where
  ok unsupported_operation value_too_long scan_without_count : Verdict

-- The search loop over the operations that the policy lists.
unfoldable pub is_listed : Operation → List Operation → Bool
is_listed c [] = false
is_listed c (op ∷ ops) = c == op || is_listed c ops

unfoldable pub is_allowed : CommandPolicy → Command → Bool
unfolding is_listed
is_allowed p c = elim p.operations [ [] ↦ leb c.op op_scan | op ∷ ops ↦ is_listed c.op (op ∷ ops) ]

unfoldable pub limit : CommandPolicy → ℤ
limit p = if p.max_value_bytes ==ℤ pos 0 then max_value_bytes else p.max_value_bytes

unfoldable pub validate : CommandPolicy → Command → Verdict
unfolding is_allowed limit
validate p c =
    if not (is_allowed p c)
    then unsupported_operation
    else if ltb_ℤ (limit p) (pos (length c.v))
    then value_too_long
    else if c.op == op_scan && ltb (length c.v) 8
    then scan_without_count
    else ok

-- Eight bytes are enough to read a count.
le_uint64_total : (v : List ℕ) → 8 ≤ length v → le_uint64 v ≢ none
unfolding le_uint64
le_uint64_total (a ∷ b ∷ c ∷ d ∷ e ∷ f ∷ g ∷ h ∷ rest) p = λ q. cc
le_uint64_total [] p = absurd (omega arith)
le_uint64_total (a ∷ []) p = absurd (omega arith)
le_uint64_total (a ∷ b ∷ []) p = absurd (omega arith)
le_uint64_total (a ∷ b ∷ c ∷ []) p = absurd (omega arith)
le_uint64_total (a ∷ b ∷ c ∷ d ∷ []) p = absurd (omega arith)
le_uint64_total (a ∷ b ∷ c ∷ d ∷ e ∷ []) p = absurd (omega arith)
le_uint64_total (a ∷ b ∷ c ∷ d ∷ e ∷ f ∷ []) p = absurd (omega arith)
le_uint64_total (a ∷ b ∷ c ∷ d ∷ e ∷ f ∷ g ∷ []) p = absurd (omega arith)

scan_has_count :
    (p : CommandPolicy) (c : Command)
    → validate p c ≡ ok
    → (c.op == op_scan) ≡ true
    → le_uint64 c.v ≢ none
unfolding validate
scan_has_count p c h s = le_uint64_total c.v (ground arith)

-- A command that any policy lets pass does not panic, whatever the store holds, nor does the
-- conflict test of two such commands.
pub validate-execute :
    (trees : TreeMap key_comparator) (p : CommandPolicy) (c d : Command) (t : trees.Tree)
    → validate p c ≡ ok
    → validate p d ≡ ok
    → (execute trees c t ≢ none) × (conflict c d ≢ none)
unfolding execute conflict
validate-execute trees p c d t h k = ground (arith, scan_has_count p c h, scan_has_count p d k)

-- A command with a one-byte operation and an int64 key that a policy with the default limit lets
-- pass survives the wire format.
pub validate-marshal :
    (p : CommandPolicy) (c : Command) (rest : List ℕ)
    → p.max_value_bytes ≡ pos 0
    → c.op < 256
    → IsInt64 c.k
    → validate p c ≡ ok
    → unmarshal (marshal c [] ++ rest) ≡ some (c, rest)
unfolding validate
validate-marshal p c rest e h k v = unmarshal-marshal c rest h k (ground arith)
