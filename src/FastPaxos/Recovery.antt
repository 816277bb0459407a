-- ===== src/FastPaxos/Recovery.antt =====
-- Prepare, snapshots, the classic ballot and repair: fastpaxos/recovery.go.
use Prim.Native.Nat.{bit_or, bit_and}
use consensus_arena.Prelude.{
  ℕ, zero, suc, ◌+◌, ◌-◌, ◌*◌, ◌/◌, ◌%◌, ◌^◌, Bool, true, false, not, ◌&&◌, ◌||◌, List, [], ◌∷◌,
  ◌++◌, Option, none, some, get_or, if◌then◌else◌, ltb, leb, ◌==◌, length, take, drop, is_some,
  nat_eq,
}
use consensus_arena.Prelude.Int.{
  int_eq, ℤ, pos, pos_part, ◌+ℤ◌, ◌-ℤ◌, ◌==ℤ◌, ltb_ℤ, leb_ℤ, int64, uint64, word_mod,
}
use consensus_arena.Prelude.Maps.{Map, find, put, has}
use consensus_arena.ReplicaSet.{Set, size}
use consensus_arena.Paxos.Defs.{RequestId, id_eq, count_up, next, rounds, ◌>>=◌}
use consensus_arena.FastPaxos.Defs.{Record, Entry}
use consensus_arena.FastPaxos.Choice.{select_value}
use consensus_arena.FastPaxos.Core.{
  Core, Slot, Pending, Snapshot, Kind, Message, message, page_length, inflight_window,
  repair_budget, slot_at, put_slot, open_slot, send, broadcast, owner, remember, enqueue,
}

-- The number of pages of a promise, at least one.
abbrev pub page_total : ℕ → ℕ
page_total k = let count = (k + page_length - 1) / page_length in if count == 0 then 1 else count

-- The pages of a promise from page `page` on, `left` of them.
unfoldable pub frozen_pages : Message → ℕ → ℕ → List Entry → List Message
frozen_pages m zero page entries = []
frozen_pages m (suc left) page entries =
    record m { page = pos page; entries = take page_length (drop (page * page_length) entries) }
    ∷ frozen_pages m left (suc page) entries

-- 1 << id
abbrev pub bit_of : ℕ → Set
bit_of id = 2 ^ id % word_mod

-- The snapshots of which every page has come: their replicas.
unfoldable pub complete : Map ℕ Snapshot → Set → Set
complete [] voters = voters
complete ((id, s) ∷ snapshots) voters =
    complete snapshots
      (if pos (length s.parts) ==ℤ s.pages then bit_or voters (bit_of id) else voters)

-- The largest slot that they report.
unfoldable pub max_slot : Map ℕ Snapshot → ℤ → ℤ
max_slot [] high = high
max_slot ((id, s) ∷ snapshots) high =
    max_slot snapshots
      (if pos (length s.parts) ==ℤ s.pages && ltb_ℤ high s.high then s.high else high)

-- bySlot[e.Slot][id] = e
unfoldable pub report : ℕ → Entry → Map ℤ (Map ℕ Entry) → Map ℤ (Map ℕ Entry)
report id e by_slot = put e.slot (put id e (get_or (find e.slot by_slot) [])) by_slot

unfoldable pub report_all : ℕ → List Entry → Map ℤ (Map ℕ Entry) → Map ℤ (Map ℕ Entry)
report_all id [] by_slot = by_slot
report_all id (e ∷ es) by_slot = report_all id es (report id e by_slot)

unfoldable pub report_parts : ℕ → Map ℤ (List Entry) → Map ℤ (Map ℕ Entry) → Map ℤ (Map ℕ Entry)
report_parts id [] by_slot = by_slot
report_parts id ((page, es) ∷ parts) by_slot = report_parts id parts (report_all id es by_slot)

abbrev pub is_voter : ℕ → Set → Bool
is_voter id voters = not (bit_and voters (bit_of id) == 0)

-- The reports of the voters, by slot and replica.
unfoldable pub reports_of : Set → Map ℕ Snapshot → Map ℤ (Map ℕ Entry) → Map ℤ (Map ℕ Entry)
reports_of voters [] by_slot = by_slot
reports_of voters ((id, s) ∷ snapshots) by_slot =
    reports_of voters snapshots
      (if is_voter id voters then report_parts id s.parts by_slot else by_slot)

-- The order of pending requests: by client, then by sequence.
abbrev pub id_lt : RequestId → RequestId → Bool
id_lt a b =
    if not (a.client ==ℤ b.client) then ltb_ℤ a.client b.client else ltb_ℤ a.sequence b.sequence

unfoldable pub insert_id : RequestId → List RequestId → List RequestId
insert_id id [] = id ∷ []
insert_id id (j ∷ ids) =
    let rest = insert_id id ids in if id_lt j id then j ∷ rest else id ∷ j ∷ ids

unfoldable pub sorted_ids : List Pending → List RequestId
sorted_ids [] = []
sorted_ids (p ∷ ps) = insert_id p.id (sorted_ids ps)

abbrev pub is_nil : List Message → Bool
is_nil [] = true
is_nil (m ∷ ms) = false

abbrev pub rest_of : List Entry → List Entry
rest_of page = if length page == page_length then [] else page

abbrev pub add_entry : List Entry → Option Entry → List Entry
add_entry page none = page
add_entry page (some e) = page ++ e ∷ []

-- The snapshot of a sender with a page of it.
unfoldable pub with_part : Message → Snapshot → Snapshot
with_part m s = record s {
  parts = if has m.page s.parts then s.parts else put m.page m.entries s.parts;
}

module _ {S : Type 0} where
  unfoldable pub adopt : ℕ → Core S → Core S
  adopt epoch c = if leb epoch c.promise then c else record c {
    promise = epoch;
    active = false;
    preparing = false;
    frozen = [];
    queue = [];
    assigned = [];
  }

  -- The epoch of the next election.
  abbrev pub next_epoch : Core S → ℕ
  next_epoch c = ((c.promise / c.n + 1) * c.n + uint64 c.id) % word_mod

  unfoldable pub begin : Core S → Core S
  begin c =
      let e = next_epoch c in
      let c' : Core S = adopt e c in
      broadcast (record (message Kind.prepare) { epoch = e; start = next c'.executed })
        (record c' {
          preparing = true;
          start = next c'.executed;
          snapshots = [];
          elections = count_up c'.elections;
          last_retry = c'.now;
        })

  -- What a replica reports of a slot: the decision, or else what it accepted, with the payload.
  unfoldable pub report_of : Slot → Core S → Option Entry
  report_of st c = elim (if is_some st.chosen then st.chosen else st.accepted) [
    | none ↦ none
    | some e ↦ if e.value.noop then some e else elim (find e.value.id c.known) [
      | none ↦ some e
      | some full ↦ some (record e { value = full; payload = true })
    ]
  ]

  -- The reports of k slots from `s` on.
  unfoldable pub entries_from : ℕ → ℤ → Core S → List Entry
  entries_from zero s c = []
  entries_from (suc k) s c =
      let rest = entries_from k (next s) c in
      elim (find s c.slots) [
        | none ↦ rest
        | some st ↦ elim (report_of st c) [ none ↦ rest | some e ↦ e ∷ rest ]
      ]

  abbrev pub freeze : ℤ → Core S → List Message
  freeze start c =
      let entries = entries_from (rounds start c.high) start c in
      let total = page_total (length entries) in
      frozen_pages
        (record (message Kind.promise) {
          epoch = c.promise;
          start = start;
          high = c.high;
          pages = pos total;
        })
        total 0 entries

  unfoldable pub send_all : ℤ → List Message → Core S → Core S
  send_all to [] c = c
  send_all to (m ∷ ms) c = send_all to ms (send to m c)

  unfoldable pub prepare : Message → Core S → Core S
  prepare m c =
      if m.epoch == 0 || not (pos (m.epoch % c.n) ==ℤ m.from)
      then c
      else if ltb m.epoch c.promise
      then send m.from (record (message Kind.nack) { epoch = c.promise }) c
      else let c1 : Core S = adopt m.epoch c in
        if not (is_nil c1.frozen)
        then (if c1.frozen_start ==ℤ m.start then send_all m.from c1.frozen c1 else c1)
        else let pages = freeze m.start c1 in
          send_all m.from pages (record c1 { frozen = pages; frozen_start = m.start })

  -- The payloads of a list of entries, of the parts of a snapshot and of the voters' snapshots.
  unfoldable pub remember_all : List Entry → Core S → Option (Core S)
  remember_all [] c = some c
  remember_all (e ∷ es) c = do
    c' ← if e.payload then remember e.value c else some c
    remember_all es c'

  unfoldable pub remember_parts : Map ℤ (List Entry) → Core S → Option (Core S)
  remember_parts [] c = some c
  remember_parts ((page, es) ∷ parts) c = do c' ← remember_all es c; remember_parts parts c'

  unfoldable pub remember_voters : Set → Map ℕ Snapshot → Core S → Option (Core S)
  remember_voters voters [] c = some c
  remember_voters voters ((id, s) ∷ snapshots) c = do
    c' ← if is_voter id voters then remember_parts s.parts c else some c
    remember_voters voters snapshots c'

  -- The coordinator's plan for a slot.
  unfoldable pub plan : ℤ → Record → Core S → Core S
  plan s v c =
      let e : Entry = record {
        slot = s;
        epoch = c.promise;
        round = 0;
        value = v;
        payload = false;
        decided = false;
      } in
      let c' : Core S = put_slot s (record (slot_at s c) { proposed = some e; acks = 0 }) c in
      record c' {
        assigned = if v.noop then c'.assigned else put v.id true c'.assigned;
        repaired = count_up c'.repaired;
      }

  -- A plan for k slots from `s` on.
  unfoldable pub plan_slots : ℕ → ℤ → Map ℤ (Map ℕ Entry) → Set → Core S → Option (Core S)
  plan_slots zero s by_slot voters c = some c
  plan_slots (suc k) s by_slot voters c = do
    choice ← select_value (get_or (find s by_slot) []) voters c.fast_size c.n
    c' ← open_slot s c
    plan_slots k (next s) by_slot voters (plan s choice.0 c')

  unfoldable pub enqueue_all : List RequestId → Core S → Core S
  enqueue_all [] c = c
  enqueue_all (id ∷ ids) c = enqueue_all ids (enqueue id c)

  -- The broadcast of entries, if there are any.
  unfoldable pub announce : Kind → ℕ → List Entry → Core S → Core S
  announce kind epoch [] c = c
  announce kind epoch (e ∷ es) c =
      broadcast (record (message kind) { epoch = epoch; entries = e ∷ es }) c

  -- A full page goes out at once, and the page starts again.
  abbrev pub when_full : List Entry → Kind → ℕ → Core S → Core S
  when_full page kind epoch c = if length page == page_length then announce kind epoch page c else c

  -- What a round of `resend` makes of a slot: an entry to accept, a decision, a payload to ask for, or
  -- nothing.
  unfoldable pub resent : Slot → Core S → Option Entry × Option Entry × Option Entry
  resent st c = elim st.chosen [
    | some e ↦ if e.value.noop then (none, some e, none) else elim (find e.value.id c.known) [
      | none ↦ (none, some e, none)
      | some v ↦ (none, some (record e { value = v; payload = true }), none)
    ]
    | none ↦ elim st.proposed [
      | none ↦ (none, none, none)
      | some e ↦
          if not (e.epoch == c.promise)
          then (none, none, none)
          else if e.value.noop
          then (some (record e { payload = true }), none, none)
          else elim (find e.value.id c.known) [
            | none ↦ (none, none, some e)
            | some v ↦ (some (record e { value = v; payload = true }), none, none)
          ]
    ]
  ]

  -- The broadcast that asks for the payload of an entry.
  abbrev pub ask : Option Entry → Core S → Core S
  ask none c = c
  ask (some e) c = broadcast (record (message Kind.fetch) { entries = e ∷ [] }) c

  -- The loop of `resend`, with the pages of entries to accept and of decisions that are not full.
  unfoldable pub resend_loop : ℕ → ℤ → List Entry → List Entry → Core S → Core S
  resend_loop zero ceiling accepted committed c =
      announce Kind.commit 0 committed (announce Kind.accept c.promise accepted c)
  resend_loop (suc budget) ceiling accepted committed c =
      let cursor = c.retry_cursor in
      let (a, d, missing) = resent (slot_at cursor c) c in
      let accepted' = add_entry accepted a in
      let committed' = add_entry committed d in
      let c' : Core S = ask missing (record c { retry_cursor = next cursor }) in
      elim (leb_ℤ cursor ceiling) [
        | false ↦ announce Kind.commit 0 committed (announce Kind.accept c.promise accepted c)
        | true ↦
            resend_loop budget ceiling (rest_of accepted') (rest_of committed')
              (when_full committed' Kind.commit 0 (when_full accepted' Kind.accept c.promise c'))
      ]

  unfoldable pub resend : Core S → Core S
  resend c =
      if not c.active || not (owner c ==ℤ c.id)
      then c
      else let floor = if ltb_ℤ c.start (next c.executed) then next c.executed else c.start in
        let top = int64 (floor +ℤ inflight_window) in
        let ceiling = if leb_ℤ top c.high then int64 (top -ℤ pos 1) else c.high in
        let cursor =
          if ltb_ℤ c.retry_cursor floor || ltb_ℤ ceiling c.retry_cursor
          then floor
          else c.retry_cursor in
        resend_loop repair_budget ceiling [] [] (record c { retry_cursor = cursor })

  abbrev pub snapshot_of : Message → Core S → Snapshot
  snapshot_of m c = elim (find (pos_part m.from) c.snapshots) [
    | none ↦ record { pages = m.pages; high = m.high; parts = [] }
    | some s ↦ s
  ]

  -- The part of `promisePage` behind a majority of whole snapshots.
  unfoldable pub take_over : Core S → Option (Core S)
  take_over c = do
    let voters = complete c.snapshots 0
    let high = max_slot c.snapshots (int64 (c.start -ℤ pos 1))
    c1 ← remember_voters voters c.snapshots c
    let c2 : Core S = record c1 {
      preparing = false;
      active = true;
      high = high;
      next_slot = next high;
      retry_cursor = c1.start;
    }
    c3 ← plan_slots (rounds c2.start high) c2.start (reports_of voters c2.snapshots []) voters c2
    some (resend (enqueue_all (sorted_ids c3.pending) c3))

  unfoldable pub promise_page : Message → Core S → Option (Core S)
  promise_page m c =
      if not c.preparing
        || not (m.epoch == c.promise)
        || not (m.start ==ℤ c.start)
        || ltb_ℤ m.pages (pos 1)
        || ltb_ℤ m.page (pos 0)
        || leb_ℤ m.pages m.page
      then some c
      else let s = snapshot_of m c in
        let c1 : Core S = record c { snapshots = put (pos_part m.from) s c.snapshots } in
        if not (s.pages ==ℤ m.pages) || not (s.high ==ℤ m.high)
        then some c1
        else let c2 : Core S = record c {
          snapshots = put (pos_part m.from) (with_part m s) c.snapshots;
        } in
          if ltb (size (complete c2.snapshots 0)) (c2.n / 2 + 1) then some c2 else take_over c2
