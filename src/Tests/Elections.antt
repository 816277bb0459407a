-- ===== src/Tests/Elections.antt =====
-- Witnesses of the theorems on the Paxos replica, for three replicas.
use mathlib.Core.List.{Memᴰ}
use consensus_arena.Prelude.{
  ℕ, zero, suc, ◌≡◌, ◌+◌, ◌%◌, ◌≤◌, refl, ap, true, false, Bool, List, [], ◌∷◌, none, some, length,
  All, arith,
}
use consensus_arena.Prelude.Int.{
  int_eq, pos, negsuc, ◌<ℤ◌, ◌+ℤ◌, ◌-ℤ◌, int64, uint64, int64_of_word, ==ℤ_iff, ◌≤ℤ◌, pos_part,
}
use consensus_arena.Prelude.Maps.{find, put, has, delete}
use consensus_arena.Prelude.Bits.{ones}
use consensus_arena.State.{Command, Value, op_put}
use consensus_arena.ReplicaSet.{with, contains, size}
use consensus_arena.ReplicaSet.Quorums.{contains-among}
use consensus_arena.Paxos.Defs.{id_eq, Request, Record, Kind, Packet, packet, Core}
use consensus_arena.Paxos.Normal.{
  count_vote, count_votes, ack, announce, apply, apply_loop, apply_record,
}
use consensus_arena.Paxos.Recovery.{
  snapshot, records_from, page_records, select_records, promised, promised_pages, max_high, adopted,
  next_ballot,
}
use consensus_arena.Paxos.Events.{receive, receive_kind, receive_other, follow_higher, dispatch}
use consensus_arena.Paxos.Monotone.{receive-ballot, receive-values}
use consensus_arena.Paxos.Selection.{AtLeast, Reported, select_highest, select-Reported}
use consensus_arena.Paxos.Survival.{ReportedBy, chosen_survives}
use consensus_arena.Paxos.Commits.{apply_drains, NonNegative}
use consensus_arena.Paxos.Votes.{HasQuorum, voted, receive_all, is_committed, commit-HasQuorum}
use consensus_arena.Paxos.Paging.{snapshot_lem}
use consensus_arena.Paxos.Elections.{next_ballot_lem}

-- A store that counts the commands, and the callback for it.
abbrev count : Command → ℕ → ℕ × Value
count command n = (n + 1, n ∷ [])

abbrev request : Request
request = record {
  id = record { client = pos 9; sequence = pos 1 };
  command = record { op = op_put; k = pos 1; v = 7 ∷ [] };
}

abbrev entry : Bool → Record
entry committed = record { slot = pos 0; ballot = pos 0; request = request; committed = committed }

-- Replica 0 of three, which leads and has one record in its log.
abbrev leader : Bool → Core ℕ
leader committed = record {
  n = 3;
  id = pos 0;
  leader = pos 0;
  frozen = [];
  frozen_ballot = pos 0;
  frozen_floor = pos 0;
  ballot = pos 0;
  active = true;
  preparing = false;
  high = pos 0;
  executed = negsuc 0;
  log = (pos 0, entry committed) ∷ [];
  values = [];
  assigned = (request.id, pos 0) ∷ [];
  pending = (request.id, request) ∷ [];
  votes = (pos 0, 1) ∷ [];
  pages = [];
  promises = [];
  queue = [];
  queued = [];
  recovery_end = negsuc 0;
  last_send = 0;
  last_fetch = 0;
  recoveries = 0;
  replay_replies = 0;
  gap_accepts = 0;
  fetch_requests = 0;
  fetch_suppressed = 0;
  resume = [];
  store = 0;
  out = [];
}

abbrev acked : Packet
acked = record (packet Kind.ack (pos 1) (pos 0)) { records = entry false ∷ [] }

-- Replica 0 after the acknowledgement of replica 1.
abbrev executed : Core ℕ
executed = elim (receive count 0 acked (leader false)) [ none ↦ leader false | some d ↦ d ]

receive-ballot_example : (executed.n ≡ 3) × (executed.id ≡ pos 0) × (pos 0 ≤ℤ executed.ballot)
unfolding receive receive_kind receive_other follow_higher dispatch ack count_votes count_vote with
    size ones find put delete apply apply_loop apply_record announce ◌+ℤ◌ int64 uint64 int64_of_word
receive-ballot_example = receive-ballot count 0 acked (leader false) executed refl

-- A replica that has executed the request gets the acknowledgement of replica 2.
abbrev later : Packet
later = record acked { from = pos 2 }

abbrev done : Core ℕ
done = record (leader true) { executed = pos 0; values = (request.id, 0 ∷ []) ∷ [] }

receive-values_example : find request.id done.values ≡ some (0 ∷ [])
unfolding receive receive_kind receive_other follow_higher dispatch ack count_votes count_vote find
    apply apply_loop announce ◌+ℤ◌ int64 uint64 int64_of_word
receive-values_example = receive-values count 0 later done done request.id (0 ∷ []) refl refl

-- The leader counts no votes yet, and hears of replicas 0 and 1.
abbrev unheard : Core ℕ
unheard = record (leader false) { votes = [] }

abbrev acks : List Packet
acks = record acked { from = pos 0 } ∷ acked ∷ []

-- The leader after both.
abbrev agreed : Core ℕ
agreed = elim (receive_all count 0 acks unheard) [ none ↦ unheard | some d ↦ d ]

commit-HasQuorum_example : (pos 0 ≡ pos 0) × HasQuorum 3 (voted 3 (pos 0) acks) (pos 0)
unfolding receive_all receive receive_kind receive_other follow_higher dispatch ack count_votes
    count_vote with size ones find put delete apply apply_loop apply_record announce is_committed
    ◌+ℤ◌ int64 uint64 int64_of_word
commit-HasQuorum_example =
    commit-HasQuorum count 0 acks unheard agreed (pos 0) (entry true) (refl, (refl, tt)) refl refl
      refl refl refl

next_ballot_lem_example :
    (pos 4 <ℤ next_ballot (pos 4) 3 (pos 2)) × (pos_part (next_ballot (pos 4) 3 (pos 2)) % 3 ≡ 2)
next_ballot_lem_example = next_ballot_lem 4 3 2 (omega arith) (omega arith)

abbrev newer : Record
newer = record (entry false) { ballot = pos 4 }

abbrev older : Record
older = entry true

select_highest_example : AtLeast (pos 4) (find (pos 0) (select_records (older ∷ newer ∷ []) []))
select_highest_example = select_highest (older ∷ newer ∷ []) [] newer (Memᴰ.tail (Memᴰ.head refl))

select-Reported_example : Reported (older ∷ newer ∷ []) [] (pos 0) newer
unfolding select_records find put
select-Reported_example = select-Reported (older ∷ newer ∷ []) [] (pos 0) newer refl

abbrev asked : Packet
asked = packet Kind.prepare (pos 1) (pos 4)

snapshot_lem_example :
    (page_records (snapshot asked (leader false)) ≡ records_from 1 (pos 0) (leader false).log)
    × All (λ (q : Packet). length q.records ≤ 128) (snapshot asked (leader false))
unfolding ◌+ℤ◌ ◌-ℤ◌
snapshot_lem_example = snapshot_lem asked (leader false)

-- A committed record and an open one behind it.
abbrev second : Record
second = record (entry false) { slot = pos 1 }

abbrev two_records : Core ℕ
two_records = record (leader false) { log = (pos 0, entry true) ∷ (pos 1, second) ∷ [] }

two_records-NonNegative : NonNegative two_records
unfolding find
two_records-NonNegative slot r found = ground (arith, ==ℤ_iff (pos 0) slot, ==ℤ_iff (pos 1) slot)

apply_drains_example : second.committed ≡ false
unfolding apply apply_loop apply_record find put delete ◌+ℤ◌ int64 uint64 int64_of_word
apply_drains_example =
    apply_drains count two_records second (omega arith, omega arith) two_records-NonNegative refl

-- Replica 1 runs an election. It and replica 2 promised, and replicas 0 and 1 accepted the request.
abbrev own_page : Packet
own_page = record (packet Kind.promise (pos 1) (pos 4)) {
  pages = pos 1;
  records = entry false ∷ [];
}

abbrev empty_page : Packet
empty_page = record (packet Kind.promise (pos 2) (pos 4)) { high = negsuc 0; pages = pos 1 }

abbrev elected : Core ℕ
elected = record (leader false) {
  id = pos 1;
  leader = pos 1;
  ballot = pos 4;
  active = false;
  preparing = true;
  log = [];
  high = negsuc 0;
  pages = (pos 1, (pos 0, own_page) ∷ []) ∷ (pos 2, (pos 0, empty_page) ∷ []) ∷ [];
  promises = (pos 1, true) ∷ (pos 2, true) ∷ [];
}

promised_by : (i : ℕ) → contains 6 (pos i) ≡ true → has (pos i) elected.promises ≡ true
unfolding contains find
promised_by zero h = ground (arith, h)
promised_by (suc zero) h = refl
promised_by (suc (suc zero)) h = refl
promised_by (suc (suc (suc i))) h =
    absurd (omega (arith, contains-among 3 6 (suc (suc (suc i))) (omega arith) (omega arith) h))

reported_by :
    (i : ℕ)
    → contains 3 (pos i) ≡ true
    → has (pos i) elected.promises ≡ true
    → (x : Record) × ReportedBy elected (pos i) x × (x.slot ≡ pos 0) × (pos 0 ≤ℤ x.ballot)
unfolding find
reported_by zero h p = ground (arith, p)
reported_by (suc zero) h p =
    (entry false, (((pos 0, own_page) ∷ []), refl, Memᴰ.head refl), refl, omega arith)
reported_by (suc (suc i)) h p =
    absurd (omega (arith, contains-among 2 3 (suc (suc i)) (omega arith) (omega arith) h))

same_request :
    (x : Record)
    → Memᴰ x (page_records (promised elected))
    → x.slot ≡ pos 0
    → pos 0 ≤ℤ x.ballot
    → x.request ≡ request
unfolding promised_pages find
same_request x (Memᴰ.head e) s b = ap (λ (y : Record). y.request) e
same_request x (Memᴰ.tail m) s b = elim m [ ]

chosen_survives_example :
    (r : Record) × (find (pos 0) (adopted elected).log ≡ some r)
    × (r.request ≡ request)
    × (r.ballot ≡ pos 4)
unfolding promised_pages find max_high ◌+ℤ◌ int64 uint64 int64_of_word size ones
chosen_survives_example =
    chosen_survives elected 3 3 6 0 0 0 (pos 0) request (omega arith) (omega arith) (omega arith)
      (omega arith) promised_by reported_by same_request refl refl (omega arith) (omega arith)
      (omega arith)
