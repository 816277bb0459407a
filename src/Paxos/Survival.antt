-- ===== src/Paxos/Survival.antt =====
-- A value that may be chosen survives an election: paxos/recovery.go, `promiseReply`.
use mathlib.Core.List.{Memᴰ, append_assoc}
use consensus_arena.Prelude.{
  ℕ, zero, suc, ◌+◌, ◌-◌, ◌≤◌, ◌<◌, ◌≡◌, refl, ap, sym, subst, ◌∙◌, inl, inr, Bool, true, false,
  List, [], ◌∷◌, ◌++◌, Option, none, some, get_or, if◌then◌else◌, ltb, leb, ◌&&◌, arith, Bool-cases,
  Option-cases,
}
use consensus_arena.Prelude.Int.{
  int_eq, ℤ, pos, ◌≤ℤ◌, ◌==ℤ◌, ==ℤ_iff, int_max, ◌+ℤ◌, ◌-ℤ◌, int64_of_IsInt64, int64,
}
use consensus_arena.Prelude.Maps.{Map, find, put, find-put, has}
use consensus_arena.ReplicaSet.{Set, contains, size}
use consensus_arena.ReplicaSet.Quorums.{IsAmong, quorums_meet}
use consensus_arena.Paxos.Defs.{id_eq, Request, Record, Core, Packet, next, rounds}
use consensus_arena.Paxos.Recovery.{
  select_records, adopt_from, filler, promised_pages, promised, page_records, values_of, max_high,
  adopted, assigned_prefix,
}
use consensus_arena.Paxos.Selection.{select_highest, select-Reported, AtLeast}

Mem-append_left : {A : Type 0} (x : A) (l r : List A) → Memᴰ x l → Memᴰ x (l ++ r)
Mem-append_left x [] r m = elim m [ ]
Mem-append_left x (a ∷ l) r (Memᴰ.head e) = Memᴰ.head e
Mem-append_left x (a ∷ l) r (Memᴰ.tail m) = Memᴰ.tail (Mem-append_left x l r m)

Mem-append_right : {A : Type 0} (x : A) (l r : List A) → Memᴰ x r → Memᴰ x (l ++ r)
Mem-append_right x [] r m = m
Mem-append_right x (a ∷ l) r m = Memᴰ.tail (Mem-append_right x l r m)

page_records-append : (a b : List Packet) → page_records (a ++ b) ≡ page_records a ++ page_records b
page_records-append [] b = refl
page_records-append (p ∷ a) b =
    rw (page_records-append a b) (sym (append_assoc p.records (page_records a) (page_records b)))

next-pos : (a : ℕ) → a + 1 < int_max → next (pos a) ≡ pos (a + 1)
unfolding ◌+ℤ◌
next-pos a h = ap int64 (ground arith) ∙ int64_of_IsInt64 (pos (a + 1)) (h, omega arith)

-- What the loop of an adoption leaves for a slot.
abbrev adopted_record : ℤ → ℤ → Map ℤ Record → Record
adopted_record ballot slot selected = record (get_or (find slot selected) (filler slot)) {
  ballot = ballot;
  committed = false;
}

find-nil : (k : ℤ) (r : Record) → find k [] ≡ some r → ⊥
unfolding find
find-nil k r h = ground (arith, h)

le_trans : (a b c : ℤ) → a ≤ℤ b → b ≤ℤ c → a ≤ℤ c
le_trans a b c p q = ground (arith, p, q)

has-other :
    (k j : ℤ) (b : Bool) (m : Map ℤ Bool)
    → j ==ℤ k ≡ false
    → has k ((j, b) ∷ m) ≡ true
    → has k m ≡ true
unfolding find
has-other k j b m other h = ground arith

abbrev pages_at : Option (Map ℤ Packet) → List Packet
pages_at none = []
pages_at (some m) = values_of m

Mem-promised_pages :
    (peer : ℤ) (promises : Map ℤ Bool) (pages : Map ℤ (Map ℤ Packet)) (m : Map ℤ Packet)
    (x : Record)
    → has peer promises ≡ true
    → find peer pages ≡ some m
    → Memᴰ x (page_records (values_of m))
    → Memᴰ x (page_records (promised_pages promises pages))
unfolding promised_pages find
Mem-promised_pages peer [] pages m x h e mem = ground arith
Mem-promised_pages peer ((j, b) ∷ promises) pages m x h e mem =
    let here : List Packet = pages_at (find j pages) in
    subst (λ l. Memᴰ x l) (sym (page_records-append here (promised_pages promises pages)))
      (elim (Bool-cases (j ==ℤ peer)) [
        | inl same ↦
            Mem-append_left x (page_records here) (page_records (promised_pages promises pages)) (
              subst (λ o. Memᴰ x (page_records (pages_at o)))
                (sym (ap (λ (k : ℤ). find k pages) ((==ℤ_iff j peer).0 same) ∙ e)) mem)
        | inr other ↦
            Mem-append_right x (page_records here) (page_records (promised_pages promises pages)) (
              Mem-promised_pages peer promises pages m x (has-other peer j b promises other h) e
                mem)
      ])

rounds-pos : (a h : ℕ) → a ≤ h → rounds (pos a) (pos h) ≡ h + 1 - a
unfolding ◌+ℤ◌ ◌-ℤ◌
rounds-pos a h le = ground arith

module _ {S : Type 0} where
  find-adopt_from :
      (k a : ℕ) (selected : Map ℤ Record) (c : Core S) (b : ℕ)
      → a + k < int_max
      → find (pos b) (adopt_from k (pos a) selected c).log ≡ (
          if leb a b && ltb b (a + k)
          then some (adopted_record c.ballot (pos b) selected)
          else find (pos b) c.log)
  unfolding adopt_from
  find-adopt_from zero a selected c b h = ground arith
  find-adopt_from (suc k) a selected c b h =
      let rec : Record = get_or (find (pos a) selected) (filler (pos a)) in
      let c' : Core S = record c {
        log = put (pos a) (record rec { ballot = c.ballot; committed = false }) c.log;
        assigned = put rec.request.id (pos a) c.assigned;
      } in
      ap (λ (z : ℤ). find (pos b) (adopt_from k z selected c').log) (next-pos a (omega arith))
      ∙ find-adopt_from k (a + 1) selected c' b (omega arith)
      ∙ ground (
        arith,
        find-put (pos a) (pos b) (adopted_record c.ballot (pos a) selected) c.log,
        ==ℤ_iff (pos a) (pos b),
      )

  -- A page of the peer has the record.
  abbrev pub ReportedBy : Core S → ℤ → Record → Type 0
  ReportedBy c peer x =
      (m : Map ℤ Packet) × (find peer c.pages ≡ some m) × Memᴰ x (page_records (values_of m))

  -- The log after an adoption, for a slot that it covers.
  find-adopted :
      (c : Core S) (a h b : ℕ)
      → next c.executed ≡ pos a
      → max_high (promised c) c.executed ≡ pos h
      → a ≤ b
      → b ≤ h
      → h + 1 < int_max
      → find (pos b) (adopted c).log
        ≡ some (adopted_record c.ballot (pos b) (select_records (page_records (promised c)) []))
  unfolding adopted
  find-adopted c a h b ea eh lo hi fits =
      let sel = select_records (page_records (promised c)) [] in
      let c' : Core S = record c {
        preparing = false;
        high = pos h;
        assigned = assigned_prefix c.executed c.log [];
      } in
      rw (ea, eh, rounds-pos a h (omega arith))
        (find-adopt_from (h + 1 - a) a sel c' b (omega arith) ∙ ground arith)

  -- A value that a quorum accepted survives an election. Let the replicas A and the replicas P be
  -- more than n together, let every replica of P have promised, and let every replica of A that
  -- promised report a record for the slot of a ballot of at least b. Let every reported record for
  -- the slot of such a ballot carry the request v. If the slot lies behind the executed prefix and
  -- within the bound that was reported, then the log that the new leader adopts has v for the
  -- slot, under the leader's own ballot.
  pub chosen_survives :
      (c : Core S) (n : ℕ) (A P : Set) (a h slot : ℕ) (b : ℤ) (v : Request)
      → n ≤ 64
      → IsAmong n A
      → IsAmong n P
      → n < size A + size P
      → ((i : ℕ) → contains P (pos i) ≡ true → has (pos i) c.promises ≡ true)
      → ((i : ℕ)
          → contains A (pos i) ≡ true
          → has (pos i) c.promises ≡ true
          → (x : Record) × ReportedBy c (pos i) x × (x.slot ≡ pos slot) × (b ≤ℤ x.ballot))
      → ((x : Record)
          → Memᴰ x (page_records (promised c))
          → x.slot ≡ pos slot
          → b ≤ℤ x.ballot
          → x.request ≡ v)
      → next c.executed ≡ pos a
      → max_high (promised c) c.executed ≡ pos h
      → a ≤ slot
      → slot ≤ h
      → h + 1 < int_max
      → (r : Record) × (find (pos slot) (adopted c).log ≡ some r)
        × (r.request ≡ v)
        × (r.ballot ≡ c.ballot)
  chosen_survives c n A P a h slot b v le among_a among_p big promised_p reported_a agree ea eh lo
        hi fits =
      let (i, below, in_a, in_p) = quorums_meet n A P le among_a among_p big in
      let (x, (m, e, mem), ex, ballot) = reported_a i in_a (promised_p i in_p) in
      let reported = Mem-promised_pages (pos i) c.promises c.pages m x (promised_p i in_p) e mem in
      let records = page_records (promised c) in
      let top =
        subst (λ s. AtLeast x.ballot (find s (select_records records []))) ex
          (select_highest records [] x reported) in
      elim (Option-cases (find (pos slot) (select_records records [])))
        as (λ _.
          (r : Record) × (find (pos slot) (adopted c).log ≡ some r)
          × (r.request ≡ v)
          × (r.ballot ≡ c.ballot)) [
            | inl gone ↦ absurd (subst (AtLeast x.ballot) gone top)
            | inr (y, got) ↦
                let ballot_y = subst (AtLeast x.ballot) got top in
                (
                  record y { ballot = c.ballot; committed = false },
                  find-adopted c a h slot ea eh lo hi fits
                      ∙ ap
                          (λ (o : Option Record). some (record (get_or o (filler (pos slot))) {
                            ballot = c.ballot;
                            committed = false;
                          }))
                          got,
                  elim (select-Reported records [] (pos slot) y got) [
                    | inl old ↦ absurd (find-nil (pos slot) y old)
                    | inr (mem_y, slot_y) ↦
                        agree y mem_y slot_y (le_trans b x.ballot y.ballot ballot ballot_y)
                  ],
                  refl,
                )
          ]
