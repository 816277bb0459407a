-- ===== src/Tests/FastRun.antt =====
-- Witnesses of what the events of a Fast Paxos replica leave alone, for replica 0 of three.
use consensus_arena.Prelude.{ℕ, ◌≡◌, ◌≤◌, ◌+◌, refl, true, false, [], ◌∷◌, none, some}
use consensus_arena.Prelude.Int.{int_eq, pos, ◌+ℤ◌, int64, uint64, int64_of_word}
use consensus_arena.Prelude.Maps.{find, put}
use consensus_arena.State.{Command, Value, op_put}
use consensus_arena.Paxos.Defs.{id_eq}
use consensus_arena.FastPaxos.Defs.{Record, Entry, same_value}
use consensus_arena.FastPaxos.Core.{
  Core, new_slot, Kind, message, open_slot, remember, bytes_equal, forget_pending,
}
use consensus_arena.FastPaxos.Normal.{
  learn, decide, apply, apply_rounds, apply_round, propose_again,
}
use consensus_arena.FastPaxos.Ticks.{set_heard}
use consensus_arena.FastPaxos.Events.{Event, step, receive, dispatch, learn_all}
use consensus_arena.FastPaxos.Keeps.{chosen_at}
use consensus_arena.FastPaxos.Monotone.{
  Reaches, decision_is_final, results_are_final, promise_never_falls,
}

abbrev count : Command → ℕ → ℕ × Value
count command n = (n + 1, n ∷ [])

abbrev request : Record
request = record {
  id = record { client = pos 9; sequence = pos 1 };
  command = record { op = op_put; k = pos 1; v = 7 ∷ [] };
  noop = false;
}

abbrev decision : Entry
decision = record {
  slot = pos 0;
  epoch = 0;
  round = 1;
  value = request;
  payload = true;
  decided = true;
}

-- The replica decided slot 0, and executed it.
abbrev learner : Core ℕ
learner = record {
  id = pos 0;
  n = 3;
  fast_size = 3;
  promise = 0;
  active = false;
  high = pos 0;
  next_slot = pos 0;
  executed = pos 0;
  slots = (pos 0, record new_slot { chosen = some decision }) ∷ [];
  known = (request.id, request) ∷ [];
  pending = [];
  results = (request.id, 0 ∷ []) ∷ [];
  assigned = [];
  queue = [];
  out = [];
  replies = [];
  now = 0;
  last_progress = 0;
  stalled = false;
  window_fallbacks = 0;
  preparing = false;
  start = pos 0;
  snapshots = [];
  frozen = [];
  frozen_start = pos 0;
  heard = 0 ∷ 0 ∷ 0 ∷ [];
  last_beat = 0;
  last_retry = 0;
  last_repair = 0;
  retry_cursor = pos 0;
  age_fallbacks = 0;
  elections = 0;
  fast_commits = 0;
  classic_commits = 0;
  repaired = 0;
  store = 1;
}

-- Replica 1 sends the decision of the slot once more, by the classic ballot 4.
abbrev again : Event
again = Event.received (record (message Kind.commit) {
  from = pos 1;
  epoch = 4;
  entries = record decision { epoch = 4 } ∷ [];
})

abbrev learned : Core ℕ
learned = elim (step count again learner) [ none ↦ learner | some d ↦ d ]

learned_reached : Reaches count learner learned
unfolding step receive dispatch learn_all learn open_slot remember bytes_equal decide forget_pending
    apply apply_rounds apply_round propose_again find put same_value set_heard ◌+ℤ◌ int64 uint64
    int64_of_word
learned_reached = Reaches.after again Reaches.start refl

decision_is_final_example :
    (x : Entry) × (chosen_at (pos 0) learned ≡ some x) × (same_value x.value decision.value ≡ true)
unfolding find
decision_is_final_example =
    decision_is_final count learner learned (pos 0) decision learned_reached refl

results_are_final_example :
    (find request.id learned.results ≡ some (0 ∷ []))
    × (find request.id learned.known ≡ some request)
unfolding find
results_are_final_example =
    results_are_final count learner learned request.id (0 ∷ []) request learned_reached refl refl

promise_never_falls_example : (0 ≤ learned.promise) × (learned.id ≡ pos 0) × (learned.n ≡ 3)
promise_never_falls_example = promise_never_falls count learner learned learned_reached
