-- ===== src/Paxos/Recovery.antt =====
-- Elections, promises and repair: paxos/recovery.go.
use consensus_arena.Prelude.{
  ℕ, zero, suc, ◌+◌, ◌-◌, ◌*◌, ◌/◌, Bool, true, false, not, ◌&&◌, ◌||◌, List, [], ◌∷◌, ◌++◌, Option,
  none, some, get_or, min, ltb, ◌==◌, if◌then◌else◌, length, take, drop, filterb, map,
}
use consensus_arena.Prelude.Int.{
  int_eq, ℤ, pos, negsuc, ◌+ℤ◌, ◌*ℤ◌, ◌==ℤ◌, pos_part, ltb_ℤ, leb_ℤ, int64, int32, div_ℤ,
}
use consensus_arena.Prelude.Maps.{Map, find, put}
use consensus_arena.State.{Command, Value, op_none}
use consensus_arena.Paxos.Defs.{
  RequestId, id_eq, Record, Packet, packet, Kind, Core, sent, broadcasted, emit, count_up, next,
  rounds, page_size, ◌>>=◌,
}
use consensus_arena.Paxos.Normal.{accept}

-- boolInt
abbrev pub bool_int : Bool → ℤ
bool_int true = pos 1
bool_int false = pos 0

-- The records of the log at k slots from `slot` on.
unfoldable pub records_from : ℕ → ℤ → Map ℤ Record → List Record
records_from zero slot log = []
records_from (suc k) slot log =
    let rest = records_from k (next slot) log in
    elim (find slot log) [ none ↦ rest | some r ↦ r ∷ rest ]

-- The pages of a promise, from page `page` on, `left` of them.
unfoldable pub pages_from : Packet → ℕ → ℕ → List Record → List Packet
pages_from reply zero page values = []
pages_from reply (suc left) page values =
    record reply {
      page = int32 (pos page);
      records = take page_size (drop (page * page_size) values);
    }
    ∷ pages_from reply left (suc page) values

-- The number of pages for so many records, at least one.
unfoldable pub page_count : ℕ → ℕ
page_count k = let count = (k + page_size - 1) / page_size in if count == 0 then 1 else count

-- The merge of the reported records: of two for a slot the one with the higher ballot stays.
unfoldable pub select_records : List Record → Map ℤ Record → Map ℤ Record
select_records [] selected = selected
select_records (r ∷ rs) selected = select_records rs (elim (find r.slot selected) [
  | none ↦ put r.slot r selected
  | some old ↦ if ltb_ℤ old.ballot r.ballot then put r.slot r selected else selected
])

-- The largest bound of the pages.
unfoldable pub max_high : List Packet → ℤ → ℤ
max_high [] high = high
max_high (page ∷ pages) high = max_high pages (if ltb_ℤ high page.high then page.high else high)

abbrev pub values_of {ℓ} : {K V : Type ℓ} → Map K V → List V
values_of [] = []
values_of (e ∷ m) = e.1 ∷ values_of m

abbrev pub page_records : List Packet → List Record
page_records [] = []
page_records (page ∷ pages) = page.records ++ page_records pages

-- The pages of the replicas that promised.
unfoldable pub promised_pages : Map ℤ Bool → Map ℤ (Map ℤ Packet) → List Packet
promised_pages [] pages = []
promised_pages ((peer, _) ∷ promises) pages =
    elim (find peer pages) [ none ↦ [] | some m ↦ values_of m ] ++ promised_pages promises pages

-- The request that fills a slot nobody reported.
abbrev pub filler : ℤ → Record
filler slot = record {
  slot = slot;
  ballot = pos 0;
  request = record {
    id = record { client = negsuc 0; sequence = int32 slot };
    command = record { op = op_none; k = pos 0; v = [] };
  };
  committed = false;
}

-- Every page 0..pages-1 has come, with the count and the bound of packet `p`, for the slots after
-- `executed`.
unfoldable pub pages_agree : ℕ → ℤ → ℤ → Packet → Map ℤ Packet → Bool
pages_agree zero page floor p got = true
pages_agree (suc left) page floor p got =
    elim (find page got) [
      | none ↦ false
      | some v ↦ v.pages ==ℤ p.pages && v.floor ==ℤ floor && v.high ==ℤ p.high
    ]
    && pages_agree left (page +ℤ pos 1) floor p got

-- The requests of the log up to `executed`, by slot.
unfoldable pub assigned_prefix : ℤ → Map ℤ Record → Map RequestId ℤ → Map RequestId ℤ
assigned_prefix executed [] assigned = assigned
assigned_prefix executed ((slot, r) ∷ log) assigned =
    assigned_prefix executed log
      (if leb_ℤ slot executed then put r.request.id slot assigned else assigned)

-- The ballot of the next election: above the old one, and this replica's by its remainder.
unfoldable pub next_ballot : ℤ → ℕ → ℤ → ℤ
next_ballot ballot n id = int64 ((div_ℤ ballot n +ℤ pos 1) *ℤ pos n +ℤ id)

abbrev pub is_cons {ℓ} : {A : Type ℓ} → List A → Bool
is_cons [] = false
is_cons (_ ∷ _) = true

module _ {S : Type 0} where
  unfoldable pub schedule_pending : Core S → Core S
  schedule_pending c = record c { resume = values_of c.pending }

  unfoldable pub activate : Core S → Core S
  activate c = schedule_pending (
      emit
        (broadcasted
          (record (packet Kind.ready c.id c.ballot) { high = c.executed; floor = pos 1 }))
        (record c { active = true }))

  -- The selected record or a filler goes into k slots from `slot` on, under the ballot.
  unfoldable pub adopt_from : ℕ → ℤ → Map ℤ Record → Core S → Core S
  adopt_from zero slot selected c = c
  adopt_from (suc k) slot selected c =
      let r = get_or (find slot selected) (filler slot) in
      adopt_from k (next slot) selected (record c {
        log = put slot (record r { ballot = c.ballot; committed = false }) c.log;
        assigned = put r.request.id slot c.assigned;
      })

  unfoldable pub send_decided : ℤ → List Record → Core S → Core S
  send_decided to [] c = c
  send_decided to (r ∷ rs) c =
      emit (sent to (record (packet Kind.commit c.id c.ballot) { records = r ∷ rs })) c

  -- c.pages[p.From] with the page of `p` in it.
  abbrev pub pages_of : Packet → Core S → Map ℤ Packet
  pages_of p c = put p.page p (get_or (find p.from c.pages) [])

  unfoldable pub with_page : Packet → Core S → Core S
  with_page p c = record c { pages = put p.from (pages_of p c) c.pages }

  unfoldable pub with_promise : Packet → Core S → Core S
  with_promise p c = record c {
    pages = put p.from (pages_of p c) c.pages;
    promises = put p.from true c.promises;
  }

  -- The pages of all promises, and what is taken over from them.
  abbrev pub promised : Core S → List Packet
  promised c = promised_pages c.promises c.pages

  unfoldable pub adopted : Core S → Core S
  adopted c =
      let selected = select_records (page_records (promised c)) [] in
      let high = max_high (promised c) c.executed in
      let c' : Core S = record c {
        preparing = false;
        high = high;
        assigned = assigned_prefix c.executed c.log [];
      } in
      record (adopt_from (rounds (next c.executed) high) (next c.executed) selected c') {
        recovery_end = high;
        votes = [];
      }

  -- The records of one page of a repair, under the ballot.
  abbrev pub suffix_page : ℤ → ℤ → Core S → List Record
  suffix_page lo end c =
      map {A = Record} {B = Record} (λ r. record r { ballot = c.ballot })
        (records_from (min page_size (rounds lo end)) lo c.log)

  -- The snapshot that `promise` answers with.
  abbrev pub snapshot : Packet → Core S → List Packet
  snapshot p c =
      let values = records_from (rounds p.floor c.high) p.floor c.log in
      let count = page_count (length values) in
      pages_from
        (record (packet Kind.promise c.id c.ballot) {
          floor = p.floor;
          high = c.high;
          pages = int32 (pos count);
        })
        count 0 values

module _ {S : Type 0} (execute : Command → S → S × Value) where
  -- A page of `sendSuffix`: to the replica that fetches with the decisions, or to all and the
  -- replica itself as open records.
  unfoldable pub send_page : ℕ → ℤ → List Record → Bool → Core S → Option (Core S)
  send_page now to recs fetch c =
      let p = packet Kind.accept c.id c.ballot in
      let open_recs = map {A = Record} {B = Record} (λ r. record r { committed = false }) recs in
      if fetch && not (to ==ℤ c.id)
      then some (
          send_decided to (filterb (λ r. r.committed) recs)
            (emit (sent to (record p { records = recs })) c))
      else accept execute now (record p { records = open_recs })
          (emit (broadcasted (record p { records = open_recs })) c)

  -- The pages of `sendSuffix` from `lo` on. An empty page is passed over.
  unfoldable pub send_pages : ℕ → ℕ → ℤ → ℤ → ℤ → Bool → Core S → Option (Core S)
  send_pages now zero to lo end fetch c = some c
  send_pages now (suc k) to lo end fetch c = do
    let recs = suffix_page lo end c
    c' ← if is_cons recs then send_page now to recs fetch c else some c
    send_pages now k to (int64 (lo +ℤ pos page_size)) end fetch c'

  -- At most 2048 slots, in pages of 128.
  unfoldable pub send_suffix : ℕ → ℤ → ℤ → Bool → Core S → Option (Core S)
  send_suffix now to start fetch c =
      let limit = int64 (start +ℤ pos 2047) in
      let end = if ltb_ℤ limit c.high then limit else c.high in
      send_pages now ((rounds start end + 127) / page_size) to start end fetch c

  unfoldable pub finish_recovery : Core S → Core S
  finish_recovery c = if leb_ℤ c.recovery_end c.executed then activate c else c

  -- The part of `promiseReply` behind a majority of promises.
  unfoldable pub adopt_promises : ℕ → Core S → Option (Core S)
  adopt_promises now c = do
    let c' : Core S = adopted c
    c'' ← send_suffix now c'.id (next c'.executed) false c'
    some (finish_recovery c'')

  unfoldable pub promise_reply : ℕ → Packet → Core S → Option (Core S)
  promise_reply now p c =
      if not c.preparing
        || not (c.leader ==ℤ c.id)
        || leb_ℤ p.pages (pos 0)
        || ltb_ℤ p.page (pos 0)
        || leb_ℤ p.pages p.page
      then some c
      else if not (length (pages_of p c) == pos_part p.pages)
          || not (pages_agree (pos_part p.pages) (pos 0) (next c.executed) p (pages_of p c))
      then some (with_page p c)
      else if ltb (length (with_promise p c).promises) (c.n / 2 + 1)
      then some (with_promise p c)
      else adopt_promises now (with_promise p c)

  -- `receive` of a promise, which `promise` calls on itself where the replica asked.
  unfoldable pub receive_promise : ℕ → Packet → Core S → Option (Core S)
  receive_promise now p c =
      if (ltb_ℤ p.from (pos 0) || leb_ℤ (pos c.n) p.from) || not (p.ballot ==ℤ c.ballot)
      then some c
      else promise_reply now p c

  unfoldable pub send_promises : ℕ → ℤ → List Packet → Core S → Option (Core S)
  send_promises now to [] c = some c
  send_promises now to (p ∷ ps) c = do
    c' ← if to ==ℤ c.id then receive_promise now p c else some (emit (sent to p) c)
    send_promises now to ps c'

  -- A repeated Prepare gets the snapshot of the first one.
  unfoldable pub promise : ℕ → Packet → Core S → Option (Core S)
  promise now p c =
      if is_cons c.frozen && c.frozen_ballot ==ℤ p.ballot && c.frozen_floor ==ℤ p.floor
      then send_promises now p.from c.frozen c
      else send_promises now p.from (snapshot p c)
          (record c { frozen = snapshot p c; frozen_ballot = p.ballot; frozen_floor = p.floor })

  -- `receive` of a Prepare, which `Begin` and `tick` call on themselves.
  unfoldable pub receive_prepare : ℕ → Packet → Core S → Option (Core S)
  receive_prepare now p c =
      if ltb_ℤ p.from (pos 0) || leb_ℤ (pos c.n) p.from
      then some c
      else if ltb_ℤ p.ballot c.ballot
      then some c
      else let c' : Core S =
          if ltb_ℤ c.ballot p.ballot
          then record c { ballot = p.ballot; leader = p.from; preparing = false; votes = [] }
          else c in
        promise now p (record c' { active = false })

  unfoldable pub begin : ℕ → Core S → Option (Core S)
  begin now c =
      let ballot = next_ballot c.ballot c.n c.id in
      let c' : Core S = record c {
        ballot = ballot;
        leader = c.id;
        active = false;
        preparing = true;
        recoveries = count_up c.recoveries;
        pages = [];
        promises = [];
        votes = [];
        last_send = now;
      } in
      let p = record (packet Kind.prepare c.id ballot) { floor = next c.executed } in
      receive_prepare now p (emit (broadcasted p) c')
