-- ===== src/Curp/Client.antt =====
-- The completion of requests by curp/client.go, with the claim of a result by client/completion.go.
use Prim.Native.Nat.{bit_or}
use consensus_arena.Prelude.{
  ℕ, suc, ◌+◌, ◌/◌, ◌%◌, ◌==◌, Bool, true, false, not, ◌&&◌, ◌||◌, List, [], ◌∷◌, ◌++◌, Option,
  none, some, get_or, leb, if◌then◌else◌,
}
use consensus_arena.Prelude.Int.{ℤ, pos, negsuc, pos_part, ◌==ℤ◌, ltb_ℤ, leb_ℤ}
use consensus_arena.Prelude.Maps.{Map, find, put, delete, has}
use consensus_arena.State.{Value}
use consensus_arena.ReplicaSet.{Set, size}
use consensus_arena.Paxos.Defs.{RequestId, id_eq}
use consensus_arena.FastPaxos.Recovery.{bit_of}

-- `completion`
pub record Completion : Type 0 where
  pub votes : Set
  pub value : Value
  pub leader_reply : Bool

abbrev pub new_completion : Completion
new_completion = record { votes = 0; value = []; leader_reply = false }

-- `Client`, with the identities that BufferClient has completed and what it delivered.
pub record Client : Type 0 where
  pub client_id : ℤ
  pub n : ℕ
  pub ballot : ℤ
  pub pending : Map RequestId Completion
  pub completed : Map RequestId Bool
  pub delivered : List (RequestId × Value)

-- NewClient
abbrev pub new_client : ℤ → ℕ → Client
new_client id n = record {
  client_id = id;
  n = n;
  ballot = negsuc 0;
  pending = [];
  completed = [];
  delivered = [];
}

-- Whether a replica, which is not negative, is Go's remainder of the ballot.
unfoldable pub leads : ℤ → ℤ → ℕ → Bool
leads replica (pos b) n = replica ==ℤ pos (b % n)
leads replica (negsuc b) n = suc b % n == 0 && replica ==ℤ pos 0

abbrev pub completion_of : RequestId → Client → Completion
completion_of id c = get_or (find id c.pending) new_completion

-- `none` is a nil result; nothing has changed then. A quorum belongs to one ballot.
unfoldable pub evidence : RequestId → ℤ → ℤ → Client → Option Client
evidence id ballot replica c =
    if not (id.client ==ℤ c.client_id)
      || ltb_ℤ replica (pos 0)
      || leb_ℤ (pos c.n) replica
      || ltb_ℤ ballot c.ballot
    then none
    else if has id c.completed
    then none
    else let c' : Client =
        if ltb_ℤ c.ballot ballot then record c { ballot = ballot; pending = [] } else c in
      some (record c' { pending = put id (completion_of id c') c'.pending })

-- BufferClient.CompleteReply: only the first result of the client's own request counts.
unfoldable pub complete_reply : RequestId → Value → Client → Client
complete_reply id v c =
    if not (id.client ==ℤ c.client_id) || has id c.completed then c else record c {
      completed = put id true c.completed;
      pending = delete id c.pending;
      delivered = c.delivered ++ (id, v) ∷ [];
    }

-- f + ceil(f / 2) + 1 of 2 f + 1 replicas.
abbrev pub fast_size : ℕ → ℕ
fast_size n = n / 2 + (n / 2 + 1) / 2 + 1

unfoldable pub try_fast : RequestId → Client → Client
try_fast id c =
    let p = completion_of id c in
    if p.leader_reply && leb (fast_size c.n) (size p.votes) then complete_reply id p.value c else c

-- c.pending[id] with a vote, and with what else a message says.
abbrev pub put_vote : RequestId → ℤ → Completion → Client → Client
put_vote id replica p c = record c {
  pending = put id (record p { votes = bit_or p.votes (bit_of (pos_part replica)) }) c.pending;
}

-- A message that `Ok` is not set in is no vote. The leader of a ballot is its remainder.
unfoldable pub handle_reply : RequestId → ℤ → ℤ → Bool → Value → Client → Client
handle_reply id ballot replica ok v c = elim (evidence id ballot replica c) [
  | none ↦ c
  | some c' ↦
      if not ok || not (leads replica ballot c'.n)
      then c'
      else try_fast id
          (put_vote id replica (record (completion_of id c') { value = v; leader_reply = true }) c')
]

unfoldable pub handle_record_ack : RequestId → ℤ → ℤ → Bool → Client → Client
handle_record_ack id ballot replica ok c = elim (evidence id ballot replica c) [
  | none ↦ c
  | some c' ↦ if not ok then c' else try_fast id (put_vote id replica (completion_of id c') c')
]

unfoldable pub handle_sync_reply : RequestId → ℤ → ℤ → Value → Client → Client
handle_sync_reply id ballot replica v c = elim (evidence id ballot replica c) [
  | none ↦ c
  | some c' ↦ complete_reply id v c'
]
