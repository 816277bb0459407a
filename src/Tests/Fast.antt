-- ===== src/Tests/Fast.antt =====
-- Witnesses of the theorems on Fast Paxos, and runs of its choice of a value.
use mathlib.Core.List.{Memᴰ}
use consensus_arena.Prelude.{ap, zero, suc, ℕ, ◌≡◌, ◌<◌, refl, true, false, [], ◌∷◌, some, arith}
use consensus_arena.Prelude.Int.{ℤ, pos, ◌-ℤ◌}
use consensus_arena.Prelude.Maps.{Map, find, put}
use consensus_arena.Prelude.Bits.{ones}
use consensus_arena.State.{op_put}
use consensus_arena.ReplicaSet.{contains, size}
use consensus_arena.Paxos.Defs.{RequestId, id_eq}
use consensus_arena.FastPaxos.Defs.{Record, Entry, fast_quorum_size, newer}
use consensus_arena.FastPaxos.Choice.{
  select_value, scan_reports, newer_of, collect, choose, first_supported, add_support,
}
use consensus_arena.FastPaxos.Quorums.{fast_quorums_meet}
use consensus_arena.FastPaxos.Fallback.{fast_chosen_selected}
use consensus_arena.ReplicaSet.Quorums.{contains-among}

-- Of five replicas, two fast quorums of four and a majority.
fast_quorums_meet_example :
    (i : ℕ) × (i < 5)
    × (contains 15 (pos i) ≡ true)
    × (contains 30 (pos i) ≡ true)
    × (contains 7 (pos i) ≡ true)
unfolding fast_quorum_size size ones
fast_quorums_meet_example =
    fast_quorums_meet 5 15 30 7 (omega arith) (omega arith) (omega arith) (omega arith)
      (omega arith) (omega arith) (omega arith)

abbrev value : ℤ → Record
value client = record {
  id = record { client = client; sequence = pos 1 };
  command = record { op = op_put; k = pos 1; v = [] };
  noop = false;
}

abbrev voted : ℤ → Entry
voted client = record {
  slot = pos 0;
  epoch = 0;
  round = 1;
  value = value client;
  payload = true;
  decided = false;
}

-- Replicas 0, 1 and 2 of five report: two votes of three may belong to a fast quorum of four.
abbrev reports : Map ℕ Entry
reports = (0, voted (pos 8)) ∷ (1, voted (pos 9)) ∷ (2, voted (pos 9)) ∷ []

two_of_three : select_value reports 7 4 5 ≡ some (value (pos 9), true)
unfolding select_value scan_reports newer_of newer collect choose first_supported add_support find
    put size ones ◌-ℤ◌
two_of_three = refl

abbrev chosen : RequestId
chosen = (value (pos 9)).id

reporter : (i : ℕ) (e : Entry) → Memᴰ (i, e) reports → contains 7 (pos i) ≡ true
unfolding contains
reporter i e (Memᴰ.head q) = ap (λ (x : ℕ × Entry). contains 7 (pos x.0)) q
reporter i e (Memᴰ.tail (Memᴰ.head q)) = ap (λ (x : ℕ × Entry). contains 7 (pos x.0)) q
reporter i e (Memᴰ.tail (Memᴰ.tail (Memᴰ.head q))) = ap (λ (x : ℕ × Entry). contains 7 (pos x.0)) q
reporter i e (Memᴰ.tail (Memᴰ.tail (Memᴰ.tail m))) = elim m [ ]

no_vote : (i : ℕ) → i ≡ 0 → contains 30 (pos i) ≡ true → ⊥
unfolding contains
no_vote i z h = ground (arith, z, h)

same_vote :
    (i : ℕ) (e : Entry) → Memᴰ (i, e) reports → contains 30 (pos i) ≡ true → e.value.id ≡ chosen
same_vote i e (Memᴰ.head q) h = absurd (no_vote i (ap (λ (x : ℕ × Entry). x.0) q) h)
same_vote i e (Memᴰ.tail (Memᴰ.head q)) h = ap (λ (x : ℕ × Entry). x.1.value.id) q
same_vote i e (Memᴰ.tail (Memᴰ.tail (Memᴰ.head q))) h = ap (λ (x : ℕ × Entry). x.1.value.id) q
same_vote i e (Memᴰ.tail (Memᴰ.tail (Memᴰ.tail m))) h = elim m [ ]

answered :
    (i : ℕ)
    → contains 30 (pos i) ≡ true
    → contains 7 (pos i) ≡ true
    → (e : Entry) × Memᴰ (i, e) reports
answered zero h k = absurd (no_vote 0 refl h)
answered (suc zero) h k = (voted (pos 9), Memᴰ.tail (Memᴰ.head refl))
answered (suc (suc zero)) h k = (voted (pos 9), Memᴰ.tail (Memᴰ.tail (Memᴰ.head refl)))
answered (suc (suc (suc i))) h k =
    absurd (omega (arith, contains-among 3 7 (suc (suc (suc i))) (omega arith) (omega arith) k))

fast_chosen_selected_example :
    (w : Record) × (select_value reports 7 (fast_quorum_size 5) 5 ≡ some (w, true))
    × (w.id ≡ chosen)
unfolding fast_quorum_size size ones
fast_chosen_selected_example =
    fast_chosen_selected 5 reports 30 7 chosen (omega arith) (omega arith) (omega arith)
      (omega arith) (omega arith)
      ((refl, refl, refl, refl), ((refl, refl, refl, refl), ((refl, refl, refl, refl), tt)))
      reporter same_vote answered
