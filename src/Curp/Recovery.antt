-- ===== src/Curp/Recovery.antt =====
-- Elections, promises with witness records, and repair: curp/recovery.go.
use Prim.Native.Nat.{bit_or}
use consensus_arena.Prelude.{
  ℕ, zero, suc, ◌+◌, ◌-◌, ◌*◌, ◌/◌, Bool, true, false, not, ◌&&◌, ◌||◌, List, [], ◌∷◌, Option, none,
  some, get_or, min, max, ltb, ◌==◌, if◌then◌else◌, length, take, drop, filterb, map,
}
use consensus_arena.Prelude.Int.{int_eq, ℤ, pos, ◌+ℤ◌, ◌==ℤ◌, pos_part, ltb_ℤ, leb_ℤ, int64, int32}
use consensus_arena.Prelude.Maps.{Map, find, put, has}
use consensus_arena.State.{Command, Value}
use consensus_arena.ReplicaSet.{Set, size}
use consensus_arena.Paxos.Defs.{
  RequestId, id_eq, Request, Record, Packet, packet, Kind, count_up, next, rounds, page_size, ◌>>=◌,
}
use consensus_arena.Paxos.Recovery.{
  records_from, page_count, select_records, max_high, values_of, page_records, promised_pages,
  filler, pages_agree, assigned_prefix, next_ballot, is_cons,
}
use consensus_arena.FastPaxos.Recovery.{id_lt, bit_of}
use consensus_arena.Curp.Conflicts.{new_conflict_index, add}
use consensus_arena.Curp.Defs.{Core, sent, broadcasted, emit}
use consensus_arena.Curp.Normal.{accept}

-- The order of the witness records: by client, then by sequence.
unfoldable pub insert_request : Request → List Request → List Request
insert_request r [] = r ∷ []
insert_request r (s ∷ rs) =
    let rest = insert_request r rs in if id_lt s.id r.id then s ∷ rest else r ∷ s ∷ rs

unfoldable pub sort_requests : List Request → List Request
sort_requests [] = []
sort_requests (r ∷ rs) = insert_request r (sort_requests rs)

-- The pages of a promise, from page `page` on, `left` of them.
unfoldable pub pages_from : Packet → ℕ → ℕ → List Record → List Request → List Packet
pages_from reply zero page values witness = []
pages_from reply (suc left) page values witness =
    record reply {
      page = int32 (pos page);
      records = take page_size (drop (page * page_size) values);
      requests = take page_size (drop (page * page_size) witness);
    }
    ∷ pages_from reply left (suc page) values witness

-- What a new leader knows of the witness records: the requests, and the replicas that reported each.
pub record Witnesses : Type 0 where
  pub requests : Map RequestId Request
  pub reporters : Map RequestId Set

-- witness[r.ID] = r and witnessVotes[r.ID] |= 1 << peer
unfoldable pub report_request : ℕ → Request → Witnesses → Witnesses
report_request peer r w = record {
  requests = put r.id r w.requests;
  reporters = put r.id (bit_or (get_or (find r.id w.reporters) 0) (bit_of peer)) w.reporters;
}

unfoldable pub report_requests : ℕ → List Request → Witnesses → Witnesses
report_requests peer [] w = w
report_requests peer (r ∷ rs) w = report_requests peer rs (report_request peer r w)

unfoldable pub report_pages : ℕ → List Packet → Witnesses → Witnesses
report_pages peer [] w = w
report_pages peer (page ∷ pages) w = report_pages peer pages (report_requests peer page.requests w)

unfoldable pub report_peers : Map ℤ Bool → Map ℤ (Map ℤ Packet) → Witnesses → Witnesses
report_peers [] pages w = w
report_peers ((peer, _) ∷ promises) pages w =
    report_peers promises pages
      (report_pages (pos_part peer) (elim (find peer pages) [ none ↦ [] | some m ↦ values_of m ]) w)

-- ceil(f / 2) + 1 of the f + 1 replicas of a majority.
abbrev pub witness_threshold : ℕ → ℕ
witness_threshold n = (n / 2 + 1) / 2 + 1

module _ {S : Type 0} where
  unfoldable pub schedule_pending : Core S → Core S
  schedule_pending c = record c { resume = values_of c.pending }

  unfoldable pub activate : Core S → Core S
  activate c = schedule_pending (
      emit
        (broadcasted
          (record (packet Kind.ready c.id c.ballot) { high = c.executed; floor = pos 1 }))
        (record c { active = true }))

  -- A record of the leader's ballot goes into a slot, and into the index.
  abbrev pub place : ℤ → Record → Core S → Core S
  place slot r c = record c {
    log = put slot (record r { ballot = c.ballot; committed = false }) c.log;
    pending_index = add r.request c.pending_index;
    assigned = put r.request.id slot c.assigned;
  }

  -- The selected record or a filler goes into k slots from `slot` on, under the ballot.
  unfoldable pub adopt_from : ℕ → ℤ → Map ℤ Record → Core S → Core S
  adopt_from zero slot selected c = c
  adopt_from (suc k) slot selected c =
      adopt_from k (next slot) selected (place slot (get_or (find slot selected) (filler slot)) c)

  -- A request that enough replicas witnessed, and no slot has, gets the next slot.
  abbrev pub restore_request : Request → Set → Core S → Core S
  restore_request r reporters c =
      if ltb (size reporters) (witness_threshold c.n) || (has r.id c.assigned || has r.id c.values)
      then c
      else place (next c.high)
          (record { slot = next c.high; ballot = c.ballot; request = r; committed = false })
          (record c { high = next c.high })

  unfoldable pub restore_requests : List Request → Map RequestId Set → Core S → Core S
  restore_requests [] reporters c = c
  restore_requests (r ∷ rs) reporters c =
      restore_requests rs reporters (restore_request r (get_or (find r.id reporters) 0) c)

  unfoldable pub send_decided : ℤ → List Record → Core S → Core S
  send_decided to [] c = c
  send_decided to (r ∷ rs) c =
      emit (sent to (record (packet Kind.commit c.id c.ballot) { records = r ∷ rs })) c

  -- c.pages[p.From] with the page of `p` in it.
  abbrev pub pages_of : Packet → Core S → Map ℤ Packet
  pages_of p c = put p.page p (get_or (find p.from c.pages) [])

  unfoldable pub with_page : Packet → Core S → Core S
  with_page p c = record c { pages = put p.from (pages_of p c) c.pages }

  unfoldable pub with_promise : Packet → Core S → Core S
  with_promise p c = record c {
    pages = put p.from (pages_of p c) c.pages;
    promises = put p.from true c.promises;
  }

  -- The pages of all promises, and what is taken over from them.
  abbrev pub promised : Core S → List Packet
  promised c = promised_pages c.promises c.pages

  unfoldable pub adopted : Core S → Core S
  adopted c =
      let selected = select_records (page_records (promised c)) [] in
      let w = report_peers c.promises c.pages (record { requests = []; reporters = [] }) in
      let high = max_high (promised c) c.executed in
      let c' : Core S = record c {
        preparing = false;
        high = high;
        assigned = assigned_prefix c.executed c.log [];
        pending_index = new_conflict_index;
      } in
      let c'' : Core S =
        restore_requests (sort_requests (values_of w.requests)) w.reporters
          (adopt_from (rounds (next c.executed) high) (next c.executed) selected c') in
      record c'' { recovery_end = c''.high; votes = [] }

  -- The records of one page of a repair, under the ballot.
  abbrev pub suffix_page : ℤ → ℤ → Core S → List Record
  suffix_page lo end c =
      map {A = Record} {B = Record} (λ r. record r { ballot = c.ballot })
        (records_from (min page_size (rounds lo end)) lo c.log)

  -- The snapshot that `promise` answers with.
  abbrev pub snapshot : Packet → Core S → List Packet
  snapshot p c =
      let values = records_from (rounds p.floor c.high) p.floor c.log in
      let witness = sort_requests (values_of c.witness) in
      let count = max (page_count (length values)) ((length witness + page_size - 1) / page_size) in
      pages_from
        (record (packet Kind.promise c.id c.ballot) {
          floor = p.floor;
          high = c.high;
          pages = int32 (pos count);
        })
        count 0 values witness

module _ {S : Type 0} (execute : Command → S → S × Value) where
  -- A page of `sendSuffix`: to the replica that fetches with the decisions, or to all and the
  -- replica itself as open records.
  unfoldable pub send_page : ℕ → ℤ → List Record → Bool → Core S → Option (Core S)
  send_page now to recs fetch c =
      let p = packet Kind.accept c.id c.ballot in
      let open_recs = map {A = Record} {B = Record} (λ r. record r { committed = false }) recs in
      if fetch && not (to ==ℤ c.id)
      then some (
          send_decided to (filterb (λ r. r.committed) recs)
            (emit (sent to (record p { records = recs })) c))
      else accept execute now (record p { records = open_recs })
          (emit (broadcasted (record p { records = open_recs })) c)

  -- The pages of `sendSuffix` from `lo` on. An empty page is passed over.
  unfoldable pub send_pages : ℕ → ℕ → ℤ → ℤ → ℤ → Bool → Core S → Option (Core S)
  send_pages now zero to lo end fetch c = some c
  send_pages now (suc k) to lo end fetch c = do
    let recs = suffix_page lo end c
    c' ← if is_cons recs then send_page now to recs fetch c else some c
    send_pages now k to (int64 (lo +ℤ pos page_size)) end fetch c'

  -- At most 2048 slots, in pages of 128.
  unfoldable pub send_suffix : ℕ → ℤ → ℤ → Bool → Core S → Option (Core S)
  send_suffix now to start fetch c =
      let limit = int64 (start +ℤ pos 2047) in
      let end = if ltb_ℤ limit c.high then limit else c.high in
      send_pages now ((rounds start end + 127) / page_size) to start end fetch c

  unfoldable pub finish_recovery : Core S → Core S
  finish_recovery c = if leb_ℤ c.recovery_end c.executed then activate c else c

  -- The part of `promiseReply` behind a majority of promises.
  unfoldable pub adopt_promises : ℕ → Core S → Option (Core S)
  adopt_promises now c = do
    let c' : Core S = adopted c
    c'' ← send_suffix now c'.id (next c'.executed) false c'
    some (finish_recovery c'')

  unfoldable pub promise_reply : ℕ → Packet → Core S → Option (Core S)
  promise_reply now p c =
      if not c.preparing
        || not (c.leader ==ℤ c.id)
        || leb_ℤ p.pages (pos 0)
        || ltb_ℤ p.page (pos 0)
        || leb_ℤ p.pages p.page
      then some c
      else if not (length (pages_of p c) == pos_part p.pages)
          || not (pages_agree (pos_part p.pages) (pos 0) (next c.executed) p (pages_of p c))
      then some (with_page p c)
      else if ltb (length (with_promise p c).promises) (c.n / 2 + 1)
      then some (with_promise p c)
      else adopt_promises now (with_promise p c)

  -- `receive` of a promise, which `promise` calls on itself where the replica asked.
  unfoldable pub receive_promise : ℕ → Packet → Core S → Option (Core S)
  receive_promise now p c =
      if (ltb_ℤ p.from (pos 0) || leb_ℤ (pos c.n) p.from) || not (p.ballot ==ℤ c.ballot)
      then some c
      else promise_reply now p c

  unfoldable pub send_promises : ℕ → ℤ → List Packet → Core S → Option (Core S)
  send_promises now to [] c = some c
  send_promises now to (p ∷ ps) c = do
    c' ← if to ==ℤ c.id then receive_promise now p c else some (emit (sent to p) c)
    send_promises now to ps c'

  unfoldable pub promise : ℕ → Packet → Core S → Option (Core S)
  promise now p c = send_promises now p.from (snapshot p c) c

  -- `receive` of a Prepare, which `Begin` and `tick` call on themselves.
  unfoldable pub receive_prepare : ℕ → Packet → Core S → Option (Core S)
  receive_prepare now p c =
      if ltb_ℤ p.from (pos 0) || leb_ℤ (pos c.n) p.from
      then some c
      else if ltb_ℤ p.ballot c.ballot
      then some c
      else let c' : Core S =
          if ltb_ℤ c.ballot p.ballot
          then record c { ballot = p.ballot; leader = p.from; preparing = false; votes = [] }
          else c in
        promise now p (record c' { active = false })

  unfoldable pub begin : ℕ → Core S → Option (Core S)
  begin now c =
      let ballot = next_ballot c.ballot c.n c.id in
      let c' : Core S = record c {
        ballot = ballot;
        leader = c.id;
        active = false;
        preparing = true;
        recoveries = count_up c.recoveries;
        pages = [];
        promises = [];
        votes = [];
        last_send = now;
      } in
      let p = record (packet Kind.prepare c.id ballot) { floor = next c.executed } in
      receive_prepare now p (emit (broadcasted p) c')
