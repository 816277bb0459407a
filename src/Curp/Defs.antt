-- ===== src/Curp/Defs.antt =====
-- The state of curp/core.go. The requests, records and packets of curp/messages.pb.go, and the sizes
-- and packet kinds of curp/defs.go, are those of package paxos.
use consensus_arena.Prelude.{
  ℕ, ◌%◌, Bool, true, false, ◌||◌, List, [], ◌∷◌, ◌++◌, Option, none, some, if◌then◌else◌,
}
use consensus_arena.Prelude.Int.{ℤ, pos, negsuc, ◌==ℤ◌, ltb_ℤ}
use consensus_arena.Prelude.Maps.{Map}
use consensus_arena.State.{Value}
use consensus_arena.ReplicaSet.{Set}
use consensus_arena.Paxos.Defs.{RequestId, Request, Record, Packet}
use consensus_arena.Curp.Conflicts.{ConflictIndex, new_conflict_index}

-- What the callbacks of a core did, in order. A reply says whether it is fast.
pub data Output : Type 0 where
  sent : ℤ → Packet → Output
  broadcasted : Packet → Output
  replied : Request → Value → Bool → Output
  answered_record : Request → Bool → Output

-- `core`: `store` is what the execute callback works on. Nothing uses the fields for a frozen
-- snapshot.
pub record Core (S : Type 0) : Type 0 where
  pub n : ℕ
  pub id : ℤ
  pub leader : ℤ
  pub ballot : ℤ
  pub active : Bool
  pub preparing : Bool
  pub high : ℤ
  pub executed : ℤ
  pub log : Map ℤ Record
  pub values : Map RequestId Value
  pub assigned : Map RequestId ℤ
  pub pending : Map RequestId Request
  pub witness : Map RequestId Request
  pub recorded : Map RequestId ℤ
  pub votes : Map ℤ Set
  pub pages : Map ℤ (Map ℤ Packet)
  pub promises : Map ℤ Bool
  pub queue : List RequestId
  pub queued : Map RequestId Bool
  pub recovery_end : ℤ
  pub last_send : ℕ
  pub last_fetch : ℕ
  pub recoveries : ℕ
  pub gap_accepts : ℕ
  pub fetch_requests : ℕ
  pub fetch_suppressed : ℕ
  pub witness_index : ConflictIndex
  pub pending_index : ConflictIndex
  pub resume : List Request
  pub store : S
  pub out : List Output

module _ {S : Type 0} where
  abbrev pub emit : Output → Core S → Core S
  emit o c = record c { out = c.out ++ o ∷ [] }

  -- newCore: `none` is its panic.
  unfoldable pub new_core : ℕ → ℤ → ℤ → S → Option (Core S)
  new_core n id leader store =
      if ltb_ℤ (pos n) (pos 3) || ltb_ℤ (pos 63) (pos n) || pos (n % 2) ==ℤ pos 0
      then none
      else some (record {
        n = n;
        id = id;
        leader = leader;
        ballot = leader;
        active = true;
        preparing = false;
        high = negsuc 0;
        executed = negsuc 0;
        log = [];
        values = [];
        assigned = [];
        pending = [];
        witness = [];
        recorded = [];
        votes = [];
        pages = [];
        promises = [];
        queue = [];
        queued = [];
        recovery_end = negsuc 0;
        last_send = 0;
        last_fetch = 0;
        recoveries = 0;
        gap_accepts = 0;
        fetch_requests = 0;
        fetch_suppressed = 0;
        witness_index = new_conflict_index;
        pending_index = new_conflict_index;
        resume = [];
        store = store;
        out = [];
      })
