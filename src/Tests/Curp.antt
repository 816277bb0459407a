-- ===== src/Tests/Curp.antt =====
-- Witnesses of the theorems on the CURP replica, and runs of its conflict index.
use consensus_arena.Prelude.{ℕ, ◌≡◌, ◌≤◌, ◌+◌, refl, true, false, [], ◌∷◌, some, get_or, arith}
use consensus_arena.Prelude.Int.{
  ◌≤ℤ◌, int_eq, ℤ, pos, negsuc, ◌+ℤ◌, ◌-ℤ◌, ◌*ℤ◌, div_ℤ, int32, int64, uint64, int64_of_word,
}
use consensus_arena.Prelude.Maps.{find, put, delete}
use consensus_arena.State.{
  Command, Value, op_put, op_get, op_scan, conflict, conflict_any, le_uint64, scan_end,
}
use consensus_arena.Paxos.Defs.{id_eq, Request}
use consensus_arena.Curp.Conflicts.{
  ConflictIndex, new_conflict_index, add, remove, increase, decrease, any_scan, any_write,
  conflicts,
}
use consensus_arena.Curp.Indexed.{Indexes}
use consensus_arena.Curp.Exact.{conflicts_exact}
use consensus_arena.Curp.Defs.{Core, new_core}
use consensus_arena.Curp.Normal.{submit, record_witness, enqueue}
use consensus_arena.Prelude.Bits.{ones}
use consensus_arena.ReplicaSet.{size, intersection}
use consensus_arena.Curp.Client.{Client, evidence, try_fast, complete_reply, handle_record_ack}
use consensus_arena.Curp.Survival.{fast_completion_survives}
use consensus_arena.Paxos.Recovery.{next_ballot, page_count, records_from, pages_agree}
use consensus_arena.Paxos.Events.{alive_at, candidate_from}
use consensus_arena.ReplicaSet.{with}
use consensus_arena.Curp.Normal.{
  flush, flush_loop, flush_step, propose_request, reply_fast, offer, accept, accept_records,
  accept_record, install, installed, vote_back, ack, count_votes, count_vote, announce, apply,
  apply_loop,
}
use consensus_arena.Curp.Recovery.{
  activate, send_suffix, send_pages, begin, receive_prepare, promise, send_promises,
  receive_promise, promise_reply, pages_from, sort_requests, with_promise,
}
use consensus_arena.Curp.Events.{Event, step, tick, resume_loop, tick_leader, tick_preparing}
use consensus_arena.Curp.Monotone.{Reaches, values_are_final, step-ballot}
use consensus_arena.Curp.Commuting.{Runs, witnesses_commute}

abbrev request : ℤ → ℕ → ℤ → Value → Request
request client op k v = record {
  id = record { client = client; sequence = pos 1 };
  command = record { op = op; k = k; v = v };
}

-- A PUT of key 1, and a SCAN of the keys 4 to 6.
abbrev writer : Request
writer = request (pos 8) op_put (pos 1) (7 ∷ [])

abbrev scanner : Request
scanner = request (pos 9) op_scan (pos 4) (2 ∷ 0 ∷ 0 ∷ 0 ∷ 0 ∷ 0 ∷ 0 ∷ 0 ∷ [])

abbrev indexed : ConflictIndex
indexed = add scanner (add writer new_conflict_index)

indexed_requests : Indexes (scanner ∷ writer ∷ []) indexed
indexed_requests =
    Indexes.added scanner (Indexes.added writer Indexes.empty refl (omega arith)) refl (omega arith)

-- A PUT of key 5 meets the scan.
abbrev second_writer : Request
second_writer = request (pos 10) op_put (pos 5) []

conflicts_exact_example : conflicts second_writer indexed ≡ some true
unfolding conflict_any conflict le_uint64 scan_end int64 uint64 int64_of_word ◌+ℤ◌
conflicts_exact_example =
    conflicts_exact (scanner ∷ writer ∷ []) indexed second_writer indexed_requests
      ((λ e. refl), ((λ e. ground (arith, e)), tt)) (λ e. ground (arith, e)) (omega arith)

-- A read of key 5 does not, and a read of the removed key does not.
read_passes : conflicts (request (pos 11) op_get (pos 5) []) indexed ≡ some false
unfolding conflicts add increase find put int64 uint64 int64_of_word ◌+ℤ◌
read_passes = refl

removed_passes : conflicts (request (pos 11) op_get (pos 1) []) (remove writer indexed) ≡ some false
unfolding conflicts add remove increase decrease find put delete int64 uint64 int64_of_word ◌+ℤ◌
    ◌-ℤ◌
removed_passes = refl

abbrev fresh : Core ℕ
fresh = record {
  n = 3;
  id = pos 0;
  leader = pos 0;
  ballot = pos 0;
  active = true;
  preparing = false;
  high = negsuc 0;
  executed = negsuc 0;
  log = [];
  values = [];
  assigned = [];
  pending = [];
  witness = [];
  recorded = [];
  votes = [];
  pages = [];
  promises = [];
  queue = [];
  queued = [];
  recovery_end = negsuc 0;
  last_send = 0;
  last_fetch = 0;
  recoveries = 0;
  gap_accepts = 0;
  fetch_requests = 0;
  fetch_suppressed = 0;
  witness_index = new_conflict_index;
  pending_index = new_conflict_index;
  resume = [];
  store = 0;
  out = [];
}

abbrev count : Command → ℕ → ℕ × Value
count command n = (n + 1, n ∷ [])

abbrev one_record : Core ℕ
one_record = get_or (submit writer fresh) fresh

abbrev two_records : Core ℕ
two_records = get_or (submit scanner one_record) one_record

two_runs : Runs count 2 two_records
unfolding new_core submit record_witness enqueue conflicts add increase any_scan any_write le_uint64
    scan_end find put int64 uint64 int64_of_word ◌+ℤ◌ ◌-ℤ◌
two_runs =
    Runs.submitted scanner
      (Runs.submitted writer (Runs.started 3 (pos 0) (pos 0) 0 refl) (λ old e. ground (arith, e))
        refl)
      (λ old e. ground (arith, e)) refl

witnesses_commute_example : conflict writer.command scanner.command ≡ some false
unfolding submit record_witness enqueue conflicts add increase any_scan any_write le_uint64 scan_end
    find put int64 uint64 int64_of_word ◌+ℤ◌ ◌-ℤ◌
witnesses_commute_example =
    witnesses_commute count 2 two_records writer.id scanner.id writer scanner two_runs (omega arith)
      refl refl refl (refl, omega arith) (refl, omega arith)

-- A client of five replicas that has the leader's reply and the votes of replicas 0, 1 and 2.
abbrev waiting : Client
waiting = record {
  client_id = pos 8;
  n = 5;
  ballot = pos 0;
  pending = (writer.id, record { votes = 7; value = 1 ∷ []; leader_reply = true }) ∷ [];
  completed = [];
  delivered = [];
}

-- Replica 3 votes, and 2, 3 and 4 are a majority.
fast_completion_survives_example : 2 ≤ size (intersection 15 28)
unfolding handle_record_ack evidence try_fast complete_reply size ones find put delete
fast_completion_survives_example =
    fast_completion_survives writer.id (pos 0) (pos 3) true waiting 28 refl refl refl (omega arith)
      (omega arith) (omega arith)

-- The leader, which has a result, is asked for the PUT and replies to it on the fast path at its tick.
abbrev serving : Core ℕ
serving = record fresh { values = (scanner.id, 3 ∷ []) ∷ [] }

abbrev asked : Core ℕ
asked = get_or (step count 0 (Event.proposed writer) serving) serving

abbrev answered : Core ℕ
answered = get_or (step count 1 (Event.ticked (true ∷ true ∷ true ∷ [])) asked) asked

answered_run : Reaches count serving answered
unfolding step submit record_witness enqueue conflicts add increase any_scan any_write le_uint64
    scan_end tick alive_at candidate_from resume_loop tick_leader activate flush flush_loop
    flush_step propose_request reply_fast offer accept accept_records accept_record install
    installed vote_back ack count_votes count_vote announce apply apply_loop with size ones
    send_suffix send_pages find put delete int64 uint64 int64_of_word ◌+ℤ◌ ◌-ℤ◌
answered_run =
    Reaches.after 1 (Event.ticked (true ∷ true ∷ true ∷ []))
      (Reaches.after 0 (Event.proposed writer) Reaches.start refl) refl

values_are_final_example :
    (find scanner.id answered.values ≡ some (3 ∷ [])) × (answered.n ≡ 3) × (answered.id ≡ pos 0)
unfolding find
values_are_final_example =
    values_are_final count serving answered scanner.id (3 ∷ []) answered_run refl

-- Replica 1 begins an election when replica 0 is not alive.
abbrev follower : Core ℕ
follower = record fresh { id = pos 1 }

abbrev candidate : Core ℕ
candidate = get_or (step count 1 (Event.ticked (false ∷ true ∷ true ∷ [])) follower) follower

step-ballot_example : pos 0 ≤ℤ candidate.ballot
unfolding step tick alive_at candidate_from begin receive_prepare promise send_promises
    receive_promise promise_reply tick_preparing resume_loop next_ballot pages_from page_count
    records_from sort_requests pages_agree with_promise find put delete ◌*ℤ◌ div_ℤ int32 int64
    uint64 int64_of_word ◌+ℤ◌ ◌-ℤ◌
step-ballot_example =
    step-ballot count 1 (Event.ticked (false ∷ true ∷ true ∷ [])) follower candidate 0 1 refl refl
      (omega arith) (omega arith) refl
