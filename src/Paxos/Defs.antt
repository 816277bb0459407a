-- ===== src/Paxos/Defs.antt =====
-- The data of paxos/core.go, paxos/defs.go and paxos/messages.pb.go. A slot, a ballot and a bound
-- are int64, an identity is int32. A time is the nanoseconds since Go's zero time.
use consensus_arena.Prelude.{
  ℕ, ◌+◌, ◌%◌, ◌≡◌, ◌↔◌, Bool, true, false, ◌&&◌, ◌||◌, List, [], ◌∷◌, ◌++◌, Option, none, some, Eq,
  if◌then◌else◌, arith,
}
use consensus_arena.Prelude.Int.{
  ℤ, pos, negsuc, ◌+ℤ◌, ◌-ℤ◌, ◌==ℤ◌, ==ℤ_iff, pos_part, ltb_ℤ, int64, word_mod,
}
use consensus_arena.Prelude.Maps.{Map}
use consensus_arena.State.{Command, Value}
use consensus_arena.ReplicaSet.{Set}

-- replica/defs.RequestID
pub record RequestId : Type 0 where
  pub client : ℤ
  pub sequence : ℤ

abbrev pub id_beq : RequestId → RequestId → Bool
id_beq a b = a.client ==ℤ b.client && a.sequence ==ℤ b.sequence

pub id_beq_iff : (a b : RequestId) → (id_beq a b ≡ true) ↔ (a ≡ b)
id_beq_iff a b = ground (arith, ==ℤ_iff a.client b.client, ==ℤ_iff a.sequence b.sequence)

instance abbrev pub id_eq : Eq RequestId
id_eq = record { beq = id_beq; beq_iff = id_beq_iff }

pub record Request : Type 0 where
  pub id : RequestId
  pub command : Command

pub record Record : Type 0 where
  pub slot : ℤ
  pub ballot : ℤ
  pub request : Request
  pub committed : Bool

-- The packet kinds of defs.go. A byte above them has no handler.
pub data Kind : Type 0 where
  prepare promise accept ack commit ready fetch forward unknown : Kind

pub record Packet : Type 0 where
  pub kind : Kind
  pub from : ℤ
  pub ballot : ℤ
  pub floor : ℤ
  pub high : ℤ
  pub page : ℤ
  pub pages : ℤ
  pub records : List Record
  pub requests : List Request

-- A packet with the fields that a literal leaves out.
abbrev pub packet : Kind → ℤ → ℤ → Packet
packet kind from ballot = record {
  kind = kind;
  from = from;
  ballot = ballot;
  floor = pos 0;
  high = pos 0;
  page = pos 0;
  pages = pos 0;
  records = [];
  requests = [];
}

abbrev pub page_size : ℕ
page_size = 128

abbrev pub admission_window : ℤ
admission_window = pos 8192

-- What the callbacks of a core did, in order. A broadcast leaves out the replica itself.
pub data Output : Type 0 where
  sent : ℤ → Packet → Output
  broadcasted : Packet → Output
  replied : Request → Value → Output

-- `core`: `store` is what the execute callback works on.
pub record Core (S : Type 0) : Type 0 where
  pub n : ℕ
  pub id : ℤ
  pub leader : ℤ
  pub frozen : List Packet
  pub frozen_ballot : ℤ
  pub frozen_floor : ℤ
  pub ballot : ℤ
  pub active : Bool
  pub preparing : Bool
  pub high : ℤ
  pub executed : ℤ
  pub log : Map ℤ Record
  pub values : Map RequestId Value
  pub assigned : Map RequestId ℤ
  pub pending : Map RequestId Request
  pub votes : Map ℤ Set
  pub pages : Map ℤ (Map ℤ Packet)
  pub promises : Map ℤ Bool
  pub queue : List RequestId
  pub queued : Map RequestId Bool
  pub recovery_end : ℤ
  pub last_send : ℕ
  pub last_fetch : ℕ
  pub recoveries : ℕ
  pub replay_replies : ℕ
  pub gap_accepts : ℕ
  pub fetch_requests : ℕ
  pub fetch_suppressed : ℕ
  pub resume : List Request
  pub store : S
  pub out : List Output

-- A uint64 counter goes up.
abbrev pub count_up : ℕ → ℕ
count_up k = (k + 1) % word_mod

-- slot + 1 and slot - 1
abbrev pub next : ℤ → ℤ
next slot = int64 (slot +ℤ pos 1)

abbrev pub before : ℤ → ℤ
before slot = int64 (slot -ℤ pos 1)

-- The rounds of `for slot := lo; slot <= hi; slot++`.
abbrev pub rounds : ℤ → ℤ → ℕ
rounds lo hi = pos_part (hi -ℤ lo +ℤ pos 1)

-- A panic ends a handler with `none`.
infixl 5 ◌>>=◌
abbrev pub ◌>>=◌ {ℓ κ} : {A : Type ℓ} {B : Type κ} → Option A → (A → Option B) → Option B
none >>= f = none
some a >>= f = f a

module _ {S : Type 0} where
  abbrev pub emit : Output → Core S → Core S
  emit o c = record c { out = c.out ++ o ∷ [] }

  -- newCore: `none` is its panic.
  unfoldable pub new_core : ℕ → ℤ → ℤ → S → Option (Core S)
  new_core n id leader store =
      if ltb_ℤ (pos n) (pos 3) || ltb_ℤ (pos 63) (pos n) || pos (n % 2) ==ℤ pos 0
      then none
      else some (record {
        n = n;
        id = id;
        leader = leader;
        frozen = [];
        frozen_ballot = pos 0;
        frozen_floor = pos 0;
        ballot = leader;
        active = true;
        preparing = false;
        high = negsuc 0;
        executed = negsuc 0;
        log = [];
        values = [];
        assigned = [];
        pending = [];
        votes = [];
        pages = [];
        promises = [];
        queue = [];
        queued = [];
        recovery_end = negsuc 0;
        last_send = 0;
        last_fetch = 0;
        recoveries = 0;
        replay_replies = 0;
        gap_accepts = 0;
        fetch_requests = 0;
        fetch_suppressed = 0;
        resume = [];
        store = store;
        out = [];
      })
