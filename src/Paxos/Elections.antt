-- ===== src/Paxos/Elections.antt =====
-- The ballots of elections: paxos/recovery.go, `Begin`.
use native.Mathlib.Nat.{lt-div-mul-add, mod-eq_of_lt, mul-add-mod_self_right}
use consensus_arena.Prelude.{ℕ, ◌+◌, ◌*◌, ◌/◌, ◌%◌, ◌<◌, ◌≡◌, ap, ◌∙◌, arith}
use consensus_arena.Prelude.Int.{
  pos, ◌+ℤ◌, ◌*ℤ◌, pos_part, ◌<ℤ◌, int64, int64_of_IsInt64, int_max, div_ℤ,
}
use consensus_arena.Paxos.Recovery.{next_ballot}

next_ballot-pos :
    (b n i : ℕ)
    → (b / n + 1) * n + i < int_max
    → next_ballot (pos b) n (pos i) ≡ pos ((b / n + 1) * n + i)
unfolding next_ballot ◌+ℤ◌ ◌*ℤ◌ div_ℤ
next_ballot-pos b n i h =
    ap int64 value ∙ int64_of_IsInt64 (pos ((b / n + 1) * n + i)) (h, omega arith)
  where
    value : (pos (b / n) +ℤ pos 1) *ℤ pos n +ℤ pos i ≡ pos ((b / n + 1) * n + i)
    value = ground arith

-- The ballot of an election is above the old one, and its remainder by the number of replicas is
-- the replica that runs it, while the ballot fits int64.
pub next_ballot_lem :
    (b n i : ℕ)
    → i < n
    → (b / n + 1) * n + i < int_max
    → (pos b <ℤ next_ballot (pos b) n (pos i)) × (pos_part (next_ballot (pos b) n (pos i)) % n ≡ i)
next_ballot_lem b n i h fits =
    let above : b < b / n * n + n = lt-div-mul-add (omega arith) in
    rw (next_ballot-pos b n i fits) (omega (arith, above), owner)
  where
    owner : ((b / n + 1) * n + i) % n ≡ i
    owner = mul-add-mod_self_right (b / n + 1) n i ∙ mod-eq_of_lt h
