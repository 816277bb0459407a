-- ===== src/Curp/Survival.antt =====
-- A fast completion of curp/client.go is enough for curp/recovery.go.
use Prim.Native.Nat.{bit_or}
use consensus_arena.Prelude.{
  ℕ, ◌/◌, ◌%◌, ◌≡◌, ◌≤◌, ◌<◌, refl, ap, ◌∙◌, Bool, true, false, not, Option, none, some, get_or,
  if◌then◌else◌, arith, [],
}
use consensus_arena.Prelude.Int.{ℤ, pos_part, ltb_ℤ}
use consensus_arena.Prelude.Maps.{find, has, find-put_self}
use consensus_arena.ReplicaSet.{Set, size, intersection}
use consensus_arena.ReplicaSet.Quorums.{IsAmong, size-intersection}
use consensus_arena.Paxos.Defs.{RequestId, id_eq}
use consensus_arena.FastPaxos.Recovery.{bit_of}
use consensus_arena.Curp.Recovery.{witness_threshold}
use consensus_arena.Curp.Client.{
  Client, Completion, new_completion, completion_of, evidence, fast_size, try_fast, put_vote,
  handle_record_ack,
}

-- The votes for a request under a ballot: those of a lower ballot do not count.
abbrev pub votes_for : RequestId → ℤ → Client → Set
votes_for id ballot c = if ltb_ℤ c.ballot ballot then 0 else (completion_of id c).votes

-- A set with as many replicas as a fast completion needs meets every majority in as many replicas as
-- the recovery of a witness record needs.
pub fast_meets_majority :
    (n : ℕ) (votes majority : Set)
    → n % 2 ≡ 1
    → IsAmong n votes
    → IsAmong n majority
    → fast_size n ≤ size votes
    → n / 2 < size majority
    → witness_threshold n ≤ size (intersection votes majority)
fast_meets_majority n votes majority odd p q fast most =
    omega (arith, size-intersection n votes majority p q, odd, fast, most)

-- An acknowledgement completes a request only with enough votes.
try_fast_completes :
    (id : RequestId) (c : Client)
    → has id c.completed ≡ false
    → has id (try_fast id c).completed ≡ true
    → fast_size c.n ≤ size (completion_of id c).votes
unfolding try_fast
try_fast_completes id c before after = ground (arith, before, after)

find-empty : (id : RequestId) → find {V = Completion} id [] ≡ none
unfolding find
find-empty id = refl

evidence-votes :
    (id : RequestId) (ballot replica : ℤ) (c d : Client)
    → evidence id ballot replica c ≡ some d
    → ((completion_of id d).votes ≡ votes_for id ballot c)
      × (d.n ≡ c.n)
      × (d.completed ≡ c.completed)
unfolding evidence
evidence-votes id ballot replica c d e = ground (
  arith,
  e,
  find-empty id,
  find-put_self id (completion_of id c) c.pending,
  find-put_self id new_completion [],
)

put_vote-votes :
    (id : RequestId) (replica : ℤ) (p : Completion) (c : Client)
    → (completion_of id (put_vote id replica p c)).votes
      ≡ bit_or p.votes (bit_of (pos_part replica))
put_vote-votes id replica p c =
    ap (λ (o : Option Completion). (get_or o new_completion).votes) (find-put_self id _ c.pending)

-- If an acknowledgement of a witness record completes a request at a client of an odd number of
-- replicas, then the replicas that vote for it under the ballot, of 0..n-1, meet every majority in as many
-- replicas as a new leader needs to restore the request.
pub fast_completion_survives :
    (id : RequestId) (ballot replica : ℤ) (ok : Bool) (c : Client) (majority : Set)
    → c.n % 2 ≡ 1
    → has id c.completed ≡ false
    → has id (handle_record_ack id ballot replica ok c).completed ≡ true
    → IsAmong c.n (bit_or (votes_for id ballot c) (bit_of (pos_part replica)))
    → IsAmong c.n majority
    → c.n / 2 < size majority
    → witness_threshold c.n
      ≤ size (intersection (bit_or (votes_for id ballot c) (bit_of (pos_part replica))) majority)
unfolding handle_record_ack
fast_completion_survives id ballot replica ok c majority odd before after p q most =
    fast_meets_majority c.n (bit_or (votes_for id ballot c) (bit_of (pos_part replica))) majority
      odd p q (go (evidence id ballot replica c) refl after) most
  where
    go :
        (o : Option Client)
        → evidence id ballot replica c ≡ o
        → (let d : Client = elim o [
          | none ↦ c
          | some c' ↦
              if not ok then c' else try_fast id (put_vote id replica (completion_of id c') c')
        ] in
            has id d.completed ≡ true)
        → fast_size c.n ≤ size (bit_or (votes_for id ballot c) (bit_of (pos_part replica)))
    go none e done = ground (arith, before, done)
    go (some c') e done = voted (evidence-votes id ballot replica c c' e) ok done
      where
        voted :
            ((completion_of id c').votes ≡ votes_for id ballot c)
              × (c'.n ≡ c.n)
              × (c'.completed ≡ c.completed)
            → (b : Bool)
            → (let d : Client =
                  if not b
                  then c'
                  else try_fast id (put_vote id replica (completion_of id c') c') in
                has id d.completed ≡ true)
            → fast_size c.n ≤ size (bit_or (votes_for id ballot c) (bit_of (pos_part replica)))
        voted (same, n, completed) false done = absurd (ground (arith, done, before, completed))
        voted (same, n, completed) true done = ground (
          arith,
          same,
          n,
          put_vote-votes id replica (completion_of id c') c',
          try_fast_completes id (put_vote id replica (completion_of id c') c')
              (ap (has id) completed ∙ before) done,
        )
