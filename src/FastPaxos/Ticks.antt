-- ===== src/FastPaxos/Ticks.antt =====
-- The clock of a Fast Paxos replica: `tick` of fastpaxos/core.go.
use Prim.Native.Nat.{bit_or, bit_and}
use consensus_arena.Prelude.{
  ℕ, zero, suc, ◌+◌, ◌-◌, ◌/◌, Bool, true, false, not, ◌&&◌, ◌||◌, List, [], ◌∷◌, ◌++◌, Option,
  none, some, get_or, if◌then◌else◌, ltb, leb, ◌==◌, length,
}
use consensus_arena.Prelude.Int.{int_eq, ℤ, pos, negsuc, pos_part, ◌==ℤ◌, ltb_ℤ, leb_ℤ}
use consensus_arena.Prelude.Maps.{find, has}
use consensus_arena.ReplicaSet.{Set, size}
use consensus_arena.Paxos.Defs.{RequestId, id_eq, count_up, next, ◌>>=◌}
use consensus_arena.FastPaxos.Defs.{Entry}
use consensus_arena.FastPaxos.Core.{
  Core, Pending, Kind, message, no_record, page_length, repair_budget, failure_timeout, slot_at,
  send, broadcast, owner,
}
use consensus_arena.FastPaxos.Normal.{flush}
use consensus_arena.FastPaxos.Recovery.{bit_of, begin, resend}

-- The heard times with one replica's set.
unfoldable pub set_heard : ℕ → ℕ → List ℕ → List ℕ
set_heard i now [] = []
set_heard zero now (t ∷ heard) = now ∷ heard
set_heard (suc i) now (t ∷ heard) = t ∷ set_heard i now heard

-- The replicas heard of within the failure timeout, and the least of them or -1.
unfoldable pub alive_from : ℕ → ℕ → List ℕ → Set
alive_from now i [] = 0
alive_from now i (t ∷ heard) =
    let rest = alive_from now (suc i) heard in
    if ltb (now - t) failure_timeout then bit_or (bit_of i) rest else rest

unfoldable pub candidate_of : ℕ → ℕ → List ℕ → ℤ
candidate_of now i [] = negsuc 0
candidate_of now i (t ∷ heard) =
    let rest = candidate_of now (suc i) heard in
    if ltb (now - t) failure_timeout then pos i else rest

abbrev pub is_empty {ℓ} : {A : Type ℓ} → List A → Bool
is_empty [] = true
is_empty (x ∷ xs) = false

-- Old requests go to the coordinator again, in turn: the list with the first behind the others, and
-- those that are due, at most `budget`.
unfoldable pub due : ℕ → ℕ → List Pending → List Pending × List RequestId
due zero now pending = (pending, [])
due (suc budget) now [] = ([], [])
due (suc budget) now (p ∷ ps) =
    let rest = due budget now (ps ++ record { id = p.id; retry_at = now + failure_timeout } ∷ []) in
    if ltb now p.retry_at then (p ∷ ps, []) else (rest.0, p.id ∷ rest.1)

module _ {S : Type 0} where
  abbrev pub forward_entry : RequestId → Core S → Entry
  forward_entry id c = record {
    slot = pos 0;
    epoch = 0;
    round = 0;
    value = get_or (find id c.known) no_record;
    payload = true;
    decided = false;
  }

  unfoldable pub forward_pages : List RequestId → List Entry → Core S → Core S
  forward_pages [] page c =
      if is_empty page
      then c
      else send (owner c) (record (message Kind.forward) { entries = page }) c
  forward_pages (id ∷ ids) page c =
      let page' = page ++ forward_entry id c ∷ [] in
      if length page' == page_length
      then forward_pages ids []
          (send (owner c) (record (message Kind.forward) { entries = page' }) c)
      else forward_pages ids page' c

  -- The parts of `tick`, in order.
  unfoldable pub beat : Core S → Core S
  beat c =
      if leb 250_000_000 (c.now - c.last_beat)
      then record (broadcast
          (record (message Kind.heartbeat) { epoch = c.promise; high = c.executed }) c) {
            last_beat = c.now;
          }
      else c

  unfoldable pub age : Core S → Core S
  age c = elim c.pending [
    | [] ↦ c
    | p ∷ ps ↦
        if c.promise == 0 && not c.stalled && leb p.retry_at c.now
        then record c { stalled = true; age_fallbacks = count_up c.age_fallbacks }
        else c
  ]

  -- Whether an election is due.
  unfoldable pub is_needed : Set → Core S → Bool
  is_needed alive c =
      (c.promise == 0
        && (ltb (size alive) c.fast_size
            || c.stalled
            || ((not (is_empty c.pending) || ltb_ℤ c.executed c.high)
                && ltb failure_timeout (c.now - c.last_progress))))
      || (ltb 0 c.promise && bit_and alive (bit_of (pos_part (owner c))) == 0)

  unfoldable pub elect : Core S → Core S
  elect c =
      let alive = alive_from c.now 0 c.heard in
      let candidate = candidate_of c.now 0 c.heard in
      let need = is_needed alive c in
      let c1 : Core S =
        if need && candidate ==ℤ c.id && leb (c.n / 2 + 1) (size alive) then begin c else c in
      if need && leb_ℤ (pos 0) candidate && not (candidate ==ℤ c.id)
      then send candidate (record (message Kind.recover) { epoch = c1.promise }) c1
      else c1

  unfoldable pub retry_prepare : Core S → Core S
  retry_prepare c =
      if c.preparing && leb 1_000_000_000 (c.now - c.last_retry)
      then record (broadcast (record (message Kind.prepare) { epoch = c.promise; start = c.start })
          c) { last_retry = c.now }
      else c

  unfoldable pub lead : Core S → Option (Core S)
  lead c = if not c.active || not (owner c ==ℤ c.id) then some c else do
    c' ← flush c
    some (
        if leb 100_000_000 (c'.now - c'.last_repair)
        then record (resend c') { last_repair = c'.now }
        else c')

  -- The next slot is decided and its payload is not here.
  unfoldable pub ask_next : Core S → Core S
  ask_next c = elim (slot_at (next c.executed) c).chosen [
    | none ↦ c
    | some e ↦
        if not e.value.noop && not (has e.value.id c.known)
        then broadcast (record (message Kind.fetch) { entries = e ∷ [] }) c
        else c
  ]

  unfoldable pub forward_old : Core S → Core S
  forward_old c =
      if ltb 0 c.promise && not (owner c ==ℤ c.id) && not (is_empty c.pending)
      then (let (pending, ids) = due repair_budget c.now c.pending in
          forward_pages ids [] (record c { pending = pending }))
      else c

  unfoldable pub retry : Core S → Core S
  retry c =
      if leb 1_000_000_000 (c.now - c.last_retry)
      then forward_old (ask_next (record c { last_retry = c.now }))
      else c

  unfoldable pub tick : ℕ → Core S → Option (Core S)
  tick now c = do
    let c1 : Core S = record c { now = now; heard = set_heard (pos_part c.id) now c.heard }
    c2 ← lead (retry_prepare (elect (age (beat c1))))
    some (retry c2)
