-- ===== src/Paxos/Commits.antt =====
-- Commitment and execution: paxos/execute.go.
use consensus_arena.Prelude.{
  ℕ, zero, suc, ◌+◌, ◌≤◌, ◌<◌, ◌≡◌, refl, ap, sym, subst, ◌∙◌, true, false, [], ◌∷◌, none, some,
  if◌then◌else◌, arith, length, Option-cases, Bool-cases, inl, inr,
}
use consensus_arena.Prelude.Int.{
  int_eq, ℤ, pos, negsuc, ◌≤ℤ◌, ◌<ℤ◌, ltb_ℤ, ==ℤ_iff, ◌+ℤ◌, int64, IsInt64, int64-IsInt64, uint64,
  int64_of_word,
}
use consensus_arena.Prelude.Maps.{Map, find}
use consensus_arena.State.{Command, Value}
use consensus_arena.Paxos.Defs.{id_eq, Record, Core, next}
use consensus_arena.Paxos.Normal.{apply_record, apply_loop, apply}

-- The log's keys above a bound.
keys_above : ℤ → Map ℤ Record → ℕ
keys_above e [] = 0
keys_above e ((k, r) ∷ log) = (if ltb_ℤ e k then 1 else 0) + keys_above e log

keys_above-le-length : (e : ℤ) (log : Map ℤ Record) → keys_above e log ≤ length log
unfolding keys_above
keys_above-le-length e [] = omega arith
keys_above-le-length e ((k, r) ∷ log) = ground (arith, keys_above-le-length e log)

keys_above_mono : (e e' : ℤ) (log : Map ℤ Record) → e ≤ℤ e' → keys_above e' log ≤ keys_above e log
unfolding keys_above
keys_above_mono e e' [] h = omega arith
keys_above_mono e e' ((k, r) ∷ log) h = ground (arith, keys_above_mono e e' log h)

-- A key that the bound passes is no longer above it.
keys_above-lt :
    (e e' : ℤ) (log : Map ℤ Record) (r : Record)
    → e <ℤ e'
    → find e' log ≡ some r
    → keys_above e' log < keys_above e log
unfolding keys_above find
keys_above-lt e e' [] r h f = ground arith
keys_above-lt e e' ((k, x) ∷ log) r h f =
    ground (arith, ==ℤ_iff k e', keys_above_mono e e' log, keys_above-lt e e' log r h)

-- The slot after one that is not the last is above it; after the last int64 comes the least.
next-above : (e : ℤ) → IsInt64 e → pos 0 ≤ℤ next e → e <ℤ next e
unfolding ◌+ℤ◌ int64 uint64 int64_of_word
next-above (pos n) h le = ground arith
next-above (negsuc n) h le = ground arith

module _ {S : Type 0} where
  -- No log entry has a negative slot.
  abbrev pub NonNegative : Core S → Type 0
  NonNegative c = (slot : ℤ) (r : Record) → find slot c.log ≡ some r → pos 0 ≤ℤ slot

module _ {S : Type 0} (execute : Command → S → S × Value) where
  executed-apply_record :
      (r : Record) (c : Core S) → (apply_record execute r c).executed ≡ next c.executed
  unfolding apply_record
  executed-apply_record r c = ground arith

  log-apply_record : (r : Record) (c : Core S) → (apply_record execute r c).log ≡ c.log
  unfolding apply_record
  log-apply_record r c = ground arith

  -- The loop at a missing record, at an open one and at a committed one.
  loop_missing :
      (fuel : ℕ) (c : Core S)
      → find (next c.executed) c.log ≡ none
      → apply_loop execute (suc fuel) c ≡ c
  unfolding apply_loop
  loop_missing fuel c e = rw (e, apply_loop) refl

  loop_open :
      (fuel : ℕ) (c : Core S) (r : Record)
      → find (next c.executed) c.log ≡ some r
      → r.committed ≡ false
      → apply_loop execute (suc fuel) c ≡ c
  unfolding apply_loop
  loop_open fuel c r e o = rw (e, o, apply_loop) refl

  loop_committed :
      (fuel : ℕ) (c : Core S) (r : Record)
      → find (next c.executed) c.log ≡ some r
      → r.committed ≡ true
      → apply_loop execute (suc fuel) c ≡ apply_loop execute fuel (apply_record execute r c)
  unfolding apply_loop apply_record
  loop_committed fuel c r e o = rw (e, o, apply_loop) refl

  -- Nothing committed is left to execute.
  abbrev pub Drained : Core S → Type 0
  Drained c = (r : Record) → find (next c.executed) c.log ≡ some r → r.committed ≡ false

  apply_loop-Drained :
      (fuel : ℕ) (c : Core S)
      → IsInt64 c.executed
      → NonNegative c
      → keys_above c.executed c.log < fuel
      → Drained (apply_loop execute fuel c)
  apply_loop-Drained zero c int nonneg lt = absurd (omega arith)
  apply_loop-Drained (suc fuel) c int nonneg lt =
      elim (Option-cases (find (next c.executed) c.log)) [
        | inl e ↦ subst Drained (sym (loop_missing fuel c e)) (λ r f. ground (arith, e, f))
        | inr (r, e) ↦ elim (Bool-cases r.committed) [
          | inr o ↦ subst Drained (sym (loop_open fuel c r e o)) (λ x f. ground (arith, e, f, o))
          | inl o ↦
              let c' : Core S = apply_record execute r c in
              let above = next-above c.executed int (nonneg (next c.executed) r e) in
              subst Drained (sym (loop_committed fuel c r e o)) (
                apply_loop-Drained fuel c'
                  (subst IsInt64 (sym (executed-apply_record r c))
                    (int64-IsInt64 (c.executed +ℤ pos 1)))
                  (λ slot x f. nonneg slot x (ap (find slot) (sym (log-apply_record r c)) ∙ f))
                  (rw (executed-apply_record r c, log-apply_record r c)
                    (omega
                      (arith, lt, keys_above-lt c.executed (next c.executed) c.log r above e))))
        ]
      ]

  -- `apply` goes on until the log has no record, or an open one, for the slot after the executed
  -- prefix: what it finds there is not committed. Premises: `executed` is an int64 and no slot of
  -- the log is negative.
  pub apply_drains :
      (c : Core S) (r : Record)
      → IsInt64 c.executed
      → NonNegative c
      → find (next (apply execute c).executed) (apply execute c).log ≡ some r
      → r.committed ≡ false
  unfolding apply
  apply_drains c r int nonneg found =
      apply_loop-Drained (suc (length c.log)) c int nonneg
        (omega (arith, keys_above-le-length c.executed c.log)) r found
