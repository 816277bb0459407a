-- ===== src/FastPaxos/Core.antt =====
-- The state of a Fast Paxos replica and its admission, votes and decisions: fastpaxos/core.go up to
-- `flush`, and fastpaxos/execute.go. A slot and an identity are Go ints, an epoch is uint64, a time
-- is the nanoseconds since the start. `none` is a panic.
use consensus_arena.Prelude.{
  ℕ, zero, suc, ◌%◌, Bool, true, false, not, ◌&&◌, ◌||◌, List, [], ◌∷◌, ◌++◌, Option, none, some,
  get_or, if◌then◌else◌, ◌==◌, is_some, filterb,
}
use consensus_arena.Prelude.Int.{int_eq, ℤ, pos, negsuc, pos_part, ◌-ℤ◌, ◌==ℤ◌, ltb_ℤ, leb_ℤ, int64}
use consensus_arena.Prelude.Maps.{Map, find, put}
use consensus_arena.State.{Command, Value, op_none}
use consensus_arena.ReplicaSet.{Set}
use consensus_arena.Paxos.Defs.{RequestId, id_beq, id_eq, count_up, next, ◌>>=◌}
use consensus_arena.FastPaxos.Defs.{Record, Entry, fast_quorum_size}

pub data Kind : Type 0 where
  vote prepare promise accept accepted commit heartbeat fetch data_entries forward nack recover
        unknown :
      Kind

pub record Message : Type 0 where
  pub kind : Kind
  pub from : ℤ
  pub epoch : ℕ
  pub start : ℤ
  pub high : ℤ
  pub page : ℤ
  pub pages : ℤ
  pub entries : List Entry

-- A message with the fields that a literal leaves out; `send` fills in the sender.
abbrev pub message : Kind → Message
message kind = record {
  kind = kind;
  from = pos 0;
  epoch = 0;
  start = pos 0;
  high = pos 0;
  page = pos 0;
  pages = pos 0;
  entries = [];
}

abbrev pub no_command : Command
no_command = record { op = op_none; k = pos 0; v = [] }

-- record{}
abbrev pub no_record : Record
no_record = record {
  id = record { client = pos 0; sequence = pos 0 };
  command = no_command;
  noop = false;
}

-- The length of a page and the windows, of fastpaxos/defs.go.
abbrev pub page_length : ℕ
page_length = 128

abbrev pub inflight_window : ℤ
inflight_window = pos 16384

abbrev pub fast_window : ℤ
fast_window = pos 8192

abbrev pub repair_budget : ℕ
repair_budget = 4096

abbrev pub failure_timeout : ℕ
failure_timeout = 3_000_000_000

-- `slotState`
pub record Slot : Type 0 where
  pub accepted : Option Entry
  pub proposed : Option Entry
  pub chosen : Option Entry
  pub votes : Map ℤ Entry
  pub max_votes : ℕ
  pub acks : Set
  pub local : Option RequestId
  pub deferred : Option Entry

abbrev pub new_slot : Slot
new_slot = record {
  accepted = none;
  proposed = none;
  chosen = none;
  votes = [];
  max_votes = 0;
  acks = 0;
  local = none;
  deferred = none;
}

-- `pendingCommand`
pub record Pending : Type 0 where
  pub id : RequestId
  pub retry_at : ℕ

-- `snapshot`
pub record Snapshot : Type 0 where
  pub pages : ℤ
  pub high : ℤ
  pub parts : Map ℤ (List Entry)

-- `core`. `pending` is the list `forwardOrder`; the map of the same name has a pointer to each of its
-- elements, by request. A snapshot's key is its sender, which `receive` has found in range. An
-- envelope to -1 is a broadcast, which reaches the replica itself, too.
pub record Core (S : Type 0) : Type 0 where
  pub id : ℤ
  pub n : ℕ
  pub fast_size : ℕ
  pub promise : ℕ
  pub active : Bool
  pub high : ℤ
  pub next_slot : ℤ
  pub executed : ℤ
  pub slots : Map ℤ Slot
  pub known : Map RequestId Record
  pub pending : List Pending
  pub results : Map RequestId Value
  pub assigned : Map RequestId Bool
  pub queue : List RequestId
  pub out : List (ℤ × Message)
  pub replies : List (RequestId × Value)
  pub now : ℕ
  pub last_progress : ℕ
  pub stalled : Bool
  pub window_fallbacks : ℕ
  pub preparing : Bool
  pub start : ℤ
  pub snapshots : Map ℕ Snapshot
  pub frozen : List Message
  pub frozen_start : ℤ
  pub heard : List ℕ
  pub last_beat : ℕ
  pub last_retry : ℕ
  pub last_repair : ℕ
  pub retry_cursor : ℤ
  pub age_fallbacks : ℕ
  pub elections : ℕ
  pub fast_commits : ℕ
  pub classic_commits : ℕ
  pub repaired : ℕ
  pub store : S

-- bytes.Equal
unfoldable pub bytes_equal : List ℕ → List ℕ → Bool
bytes_equal [] [] = true
bytes_equal [] (b ∷ bs) = false
bytes_equal (a ∷ rest) [] = false
bytes_equal (a ∷ rest) (b ∷ bs) = a == b && bytes_equal rest bs

abbrev pub same_command : Command → Command → Bool
same_command a b = a.op == b.op && a.k ==ℤ b.k && bytes_equal a.v b.v

unfoldable pub is_pending : RequestId → List Pending → Bool
is_pending id [] = false
is_pending id (p ∷ ps) = id_beq p.id id || is_pending id ps

abbrev pub zeros : ℕ → List ℕ
zeros zero = []
zeros (suc n) = 0 ∷ zeros n

module _ {S : Type 0} where
  -- newCore, with the store that the execute callback works on.
  unfoldable pub new_core : ℤ → ℤ → S → Option (Core S)
  new_core id n store =
      if ltb_ℤ n (pos 3)
        || ltb_ℤ (pos 63) n
        || pos (pos_part n % 2) ==ℤ pos 0
        || ltb_ℤ id (pos 0)
        || leb_ℤ n id
      then none
      else some (record {
        id = id;
        n = pos_part n;
        fast_size = fast_quorum_size (pos_part n);
        promise = 0;
        active = false;
        high = negsuc 0;
        next_slot = pos 0;
        executed = negsuc 0;
        slots = [];
        known = [];
        pending = [];
        results = [];
        assigned = [];
        queue = [];
        out = [];
        replies = [];
        now = 0;
        last_progress = 0;
        stalled = false;
        window_fallbacks = 0;
        preparing = false;
        start = pos 0;
        snapshots = [];
        frozen = [];
        frozen_start = pos 0;
        heard = zeros (pos_part n);
        last_beat = 0;
        last_retry = 0;
        last_repair = 0;
        retry_cursor = pos 0;
        age_fallbacks = 0;
        elections = 0;
        fast_commits = 0;
        classic_commits = 0;
        repaired = 0;
        store = store;
      })

  abbrev pub slot_at : ℤ → Core S → Slot
  slot_at s c = get_or (find s c.slots) new_slot

  abbrev pub put_slot : ℤ → Slot → Core S → Core S
  put_slot s st c = record c { slots = put s st c.slots }

  -- `slot` makes the slot that it returns, and counts it in.
  unfoldable pub open_slot : ℤ → Core S → Option (Core S)
  open_slot s c =
      if ltb_ℤ s (pos 0)
      then none
      else some (record c {
        high = if ltb_ℤ c.high s then s else c.high;
        slots = put s (slot_at s c) c.slots;
      })

  unfoldable pub send : ℤ → Message → Core S → Core S
  send to m c = record c { out = c.out ++ (to, record m { from = c.id }) ∷ [] }

  unfoldable pub broadcast : Message → Core S → Core S
  broadcast m c = send (negsuc 0) m c

  unfoldable pub owner : Core S → ℤ
  owner c = pos (c.promise % c.n)

  unfoldable pub remember : Record → Core S → Option (Core S)
  remember v c = if v.noop then some c else elim (find v.id c.known) [
    | none ↦ some (record c { known = put v.id v c.known })
    | some old ↦ if same_command old.command v.command then some c else none
  ]

  unfoldable pub forget_pending : RequestId → Core S → Core S
  forget_pending id c = record c { pending = filterb (λ p. not (id_beq p.id id)) c.pending }

  unfoldable pub enqueue : RequestId → Core S → Core S
  enqueue id c =
      if elim (find id c.assigned) [ none ↦ false | some b ↦ b ]
      then c
      else record c { assigned = put id true c.assigned; queue = c.queue ++ id ∷ [] }

  -- The part of `vote` behind its guards: the acceptance and the vote that goes out.
  unfoldable pub cast_vote : Entry → Core S → Core S
  cast_vote e c =
      let e' : Entry = record e { payload = true } in
      let wire : Entry = record e {
        payload = false;
        value = record e.value { command = no_command };
      } in
      broadcast (record (message Kind.vote) { entries = wire ∷ [] })
        (put_slot e.slot (record (slot_at e.slot c) { accepted = some e'; deferred = none }) c)

  -- An entry whose payload is not here waits for it.
  unfoldable pub defer : Entry → Core S → Core S
  defer e c =
      broadcast (record (message Kind.fetch) { entries = e ∷ [] })
        (put_slot e.slot (record (slot_at e.slot c) { deferred = some e }) c)

  unfoldable pub cast : Entry → Core S → Option (Core S)
  cast e c = if not (c.promise == 0) then some c else do
    c' ← open_slot e.slot c
    some (
        if is_some (slot_at e.slot c').accepted
        then c'
        else if e.value.noop
        then cast_vote e c'
        else elim (find e.value.id c'.known) [
          | none ↦ defer e c'
          | some v ↦ cast_vote (record e { value = v }) c'
        ])

  unfoldable pub propose_fast : Record → Core S → Option (Core S)
  propose_fast v c =
      if leb_ℤ fast_window (int64 (int64 (c.next_slot -ℤ c.executed) -ℤ pos 1))
      then some (record c {
        window_fallbacks = if c.stalled then c.window_fallbacks else count_up c.window_fallbacks;
        stalled = true;
      })
      else do
        let s = c.next_slot
        c' ← open_slot s (record c { next_slot = next s })
        cast (record { slot = s; epoch = 0; round = 1; value = v; payload = true; decided = false })
            (put_slot s (record (slot_at s c') { local = some v.id }) c')
