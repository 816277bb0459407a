-- ===== src/FastPaxos/Defs.antt =====
-- The data and the helpers of fastpaxos/defs.go and fastpaxos/messages.pb.go. An epoch and a round
-- are uint64, a slot is a Go int.
use consensus_arena.Prelude.{ℕ, ◌+◌, ◌*◌, ◌/◌, Bool, true, false, ◌&&◌, ◌||◌, not, ltb, ◌==◌}
use consensus_arena.Prelude.Int.{ℤ}
use consensus_arena.State.{Command}
use consensus_arena.Paxos.Defs.{RequestId, id_beq}

pub record Record : Type 0 where
  pub id : RequestId
  pub command : Command
  pub noop : Bool

pub record Entry : Type 0 where
  pub slot : ℤ
  pub epoch : ℕ
  pub round : ℕ
  pub value : Record
  pub payload : Bool
  pub decided : Bool

-- A fast quorum has more than three quarters of the replicas.
unfoldable pub fast_quorum_size : ℕ → ℕ
fast_quorum_size n = 3 * n / 4 + 1

abbrev pub beq_bool : Bool → Bool → Bool
beq_bool true b = b
beq_bool false b = not b

unfoldable pub same_value : Record → Record → Bool
same_value a b = beq_bool a.noop b.noop && (a.noop || id_beq a.id b.id)

unfoldable pub newer : Entry → Entry → Bool
newer a b = ltb b.epoch a.epoch || (a.epoch == b.epoch && ltb b.round a.round)
