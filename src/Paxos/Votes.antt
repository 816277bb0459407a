-- ===== src/Paxos/Votes.antt =====
-- What stands behind a commitment: the votes of paxos/core.go and their execution.
use consensus_arena.Prelude.{
  ℕ, zero, suc, ◌+◌, ◌/◌, ltb, ◌<◌, ◌≡◌, refl, ap, subst, Bool, true, false, not, ◌&&◌, ◌||◌, List,
  [], ◌∷◌, All, Option, none, some, if_both, arith, Option-cases, Bool-cases, inl, inr,
}
use consensus_arena.Prelude.Int.{int_eq, ℤ, pos, ◌==ℤ◌, ==ℤ_iff, ltb_ℤ, leb_ℤ}
use consensus_arena.Prelude.Maps.{find, put, find-put, find-delete}
use consensus_arena.State.{Command, Value}
use consensus_arena.ReplicaSet.{Set, with, size, contains}
use consensus_arena.ReplicaSet.Members.{contains-with, contains-empty}
use consensus_arena.Paxos.Defs.{id_eq, Record, Packet, Kind, Core, next, ◌>>=◌}
use consensus_arena.Paxos.Events.{receive, receive_kind, receive_other, follow_higher, dispatch}
use consensus_arena.Paxos.Normal.{
  votes_at, count_vote, count_votes, announce, apply_record, apply_loop, apply, ack, receive_ack,
}

-- Whether a packet's records name a slot.
unfoldable pub names_slot : ℤ → List Record → Bool
names_slot slot [] = false
names_slot slot (r ∷ rs) = r.slot ==ℤ slot || names_slot slot rs

-- Whether one of the packets is a vote for a slot by a replica of 0..n-1, in a ballot.
unfoldable pub voted : ℕ → ℤ → List Packet → ℤ → ℤ → Bool
voted n ballot [] slot i = false
voted n ballot (p ∷ ps) slot i =
    (not (ltb_ℤ p.from (pos 0))
      && ltb_ℤ p.from (pos n)
      && p.ballot ==ℤ ballot
      && p.from ==ℤ i
      && names_slot slot p.records)
    || voted n ballot ps slot i

-- A majority of n replicas, all of whose members voted for a slot.
abbrev pub HasQuorum : ℕ → (ℤ → ℤ → Bool) → ℤ → Type 0
HasQuorum n vote slot =
    (q : Set) × (n / 2 < size q) × ((i : ℤ) → contains q i ≡ true → vote slot i ≡ true)

module _ {S : Type 0} where
  -- Whether the log has a slot as committed.
  unfoldable pub is_committed : ℤ → Core S → Bool
  is_committed slot c = elim (find slot c.log) [ none ↦ false | some r ↦ r.committed ]

  -- Every vote that is counted was cast, and every commitment since `c0` has a quorum behind it.
  record Backed (vote : ℤ → ℤ → Bool) (c0 c : Core S) : Type 0 where
    n : c.n ≡ c0.n
    ballot : c.ballot ≡ c0.ballot
    votes : (slot i : ℤ) → contains (votes_at slot c.votes) i ≡ true → vote slot i ≡ true
    commits :
        (slot : ℤ) (r : Record)
        → find slot c.log ≡ some r
        → r.committed ≡ true
        → is_committed slot c0 ≡ false
        → (r.ballot ≡ c0.ballot) × HasQuorum c0.n vote slot

module _ {S : Type 0} (vote : ℤ → ℤ → Bool) (c0 : Core S) where
  abbrev B : Core S → Type 0
  B c = Backed vote c0 c

  -- The core with the vote counted.
  abbrev counted : ℤ → ℤ → Core S → Core S
  counted from slot c = record c { votes = put slot (with (votes_at slot c.votes) from) c.votes }

  counted-votes :
      (from slot : ℤ) (c : Core S)
      → B c
      → vote slot from ≡ true
      → (i : ℤ) → contains (with (votes_at slot c.votes) from) i ≡ true
      → vote slot i ≡ true
  counted-votes from slot c b v i h = ground (
    arith,
    contains-with (votes_at slot c.votes) from i,
    ==ℤ_iff from i,
    b.votes slot i,
    v,
    h,
    λ (e : from ≡ i). ap (vote slot) e,
  )

  counted-Backed :
      (from slot : ℤ) (c : Core S) → B c → vote slot from ≡ true → B (counted from slot c)
  counted-Backed from slot c b v = record {
    n = b.n;
    ballot = b.ballot;
    votes = λ s i h. ground (
      arith,
      find-put slot s (with (votes_at slot c.votes) from) c.votes,
      ==ℤ_iff slot s,
      counted-votes from slot c b v i,
      b.votes s i,
      h,
    );
    commits = b.commits;
  }

  committed-Backed :
      (from slot : ℤ) (r : Record) (c : Core S)
      → B c
      → vote slot from ≡ true
      → r.ballot ≡ c.ballot
      → c.n / 2 < size (with (votes_at slot c.votes) from)
      → B (record (counted from slot c) { log = put slot (record r { committed = true }) c.log })
  committed-Backed from slot r c b v same most = record {
    n = b.n;
    ballot = b.ballot;
    votes = (counted-Backed from slot c b v).votes;
    commits = λ s x h k fresh. elim (Bool-cases (slot ==ℤ s)) [
      | inl e ↦ (
        ground (arith, find-put slot s (record r { committed = true }) c.log, e, h, same, b.ballot),
        subst (HasQuorum c0.n vote) ((==ℤ_iff slot s).0 e) quorum,
      )
      | inr e ↦
          b.commits s x
            (ground (arith, find-put slot s (record r { committed = true }) c.log, e, h)) k fresh
    ];
  }
    where
      quorum : HasQuorum c0.n vote slot
      quorum = (
        with (votes_at slot c.votes) from,
        omega (arith, most, ap (λ (m : ℕ). m / 2) b.n),
        counted-votes from slot c b v,
      )

  count_vote-Backed :
      (from : ℤ) (r : Record) (c : Core S)
      → B c
      → vote r.slot from ≡ true
      → B (count_vote from r c).0
  unfolding count_vote
  count_vote-Backed from r c b v = elim (Bool-cases (leb_ℤ r.slot c.executed)) [
    | inl old ↦ rw (old, count_vote) b
    | inr new ↦ elim (Option-cases (find r.slot c.log)) [
      | inl e ↦ rw (new, e, count_vote) (counted-Backed from r.slot c b v)
      | inr (x, e) ↦
          elim (Bool-cases (
            not (x.ballot ==ℤ c.ballot)
            || x.committed
            || ltb (size (with (votes_at r.slot c.votes) from)) (c.n / 2 + 1))) [
              | inl k ↦ rw (new, e, k, count_vote) (counted-Backed from r.slot c b v)
              | inr k ↦
                  rw (new, e, k, count_vote)
                    (committed-Backed from r.slot x c b v
                      (ground (arith, k, ==ℤ_iff x.ballot c.ballot)) (ground (arith, k)))
            ]
    ]
  ]

  count_votes-Backed :
      (from : ℤ) (rs : List Record) (c : Core S)
      → B c
      → ((slot : ℤ) → names_slot slot rs ≡ true → vote slot from ≡ true)
      → B (count_votes from rs c).0
  unfolding count_votes names_slot
  count_votes-Backed from [] c b v = b
  count_votes-Backed from (r ∷ rs) c b v =
      count_votes-Backed from rs (count_vote from r c).0
        (count_vote-Backed from r c b (v r.slot (ground (arith, ==ℤ_iff r.slot r.slot))))
        (λ slot h. v slot (ground (arith, h)))

  announce-Backed : (kind : Kind) (rs : List Record) (c : Core S) → B c → B (announce kind rs c)
  unfolding announce
  announce-Backed kind [] c b = b
  announce-Backed kind (r ∷ rs) c b = record {
    n = b.n;
    ballot = b.ballot;
    votes = b.votes;
    commits = b.commits;
  }

  apply_record-Backed :
      (execute : Command → S → S × Value) (r : Record) (c : Core S)
      → B c
      → B (apply_record execute r c)
  unfolding apply_record
  apply_record-Backed execute r c b = record {
    n = ground (arith, b.n);
    ballot = ground (arith, b.ballot);
    votes = λ s i h. ground (arith, find-delete r.slot s c.votes, contains-empty i, b.votes s i, h);
    commits = λ s x h k fresh. b.commits s x (ground (arith, h)) k fresh;
  }

  apply_loop-Backed :
      (execute : Command → S → S × Value) (fuel : ℕ) (c : Core S)
      → B c
      → B (apply_loop execute fuel c)
  unfolding apply_loop
  apply_loop-Backed execute zero c b = b
  apply_loop-Backed execute (suc fuel) c b = elim (Option-cases (find (next c.executed) c.log)) [
    | inl e ↦ rw (e, apply_loop) b
    | inr (r, e) ↦ elim (Bool-cases r.committed) [
      | inl y ↦
          rw (e, apply_loop, y)
            (apply_loop-Backed execute fuel (apply_record execute r c)
              (apply_record-Backed execute r c b))
      | inr n ↦ rw (e, apply_loop, n) b
    ]
  ]

  ack-Backed :
      (execute : Command → S → S × Value) (p : Packet) (c : Core S)
      → B c
      → ((slot : ℤ) → names_slot slot p.records ≡ true → vote slot p.from ≡ true)
      → B (ack execute p c)
  unfolding ack apply
  ack-Backed execute p c b v =
      let (c', committed) = count_votes p.from p.records c in
      if_both B _ b (
        apply_loop-Backed execute _ _
          (announce-Backed Kind.commit committed c' (count_votes-Backed p.from p.records c b v)))

module _ {S : Type 0} (execute : Command → S → S × Value) where
  -- Acknowledgements, one after the other.
  unfoldable pub receive_acks : List Packet → Core S → Core S
  receive_acks [] c = c
  receive_acks (p ∷ ps) c = receive_acks ps (receive_ack execute p c)

  receive_ack-Backed :
      (vote : ℤ → ℤ → Bool) (c0 c : Core S) (p : Packet)
      → Backed vote c0 c
      → ((slot i : ℤ) → voted c0.n c0.ballot (p ∷ []) slot i ≡ true → vote slot i ≡ true)
      → Backed vote c0 (receive_ack execute p c)
  unfolding receive_ack voted
  receive_ack-Backed vote c0 c p b v =
      elim (Bool-cases
        ((ltb_ℤ p.from (pos 0) || leb_ℤ (pos c.n) p.from) || not (p.ballot ==ℤ c.ballot))) [
          | inl e ↦ rw (e, receive_ack) b
          | inr e ↦
              rw (e, receive_ack)
                (ack-Backed vote c0 execute p c b (λ slot h.
                  v slot p.from (ground (arith, e, h, b.n, b.ballot, ==ℤ_iff p.from p.from))))
        ]

  receive_acks-Backed :
      (vote : ℤ → ℤ → Bool) (c0 : Core S) (ps : List Packet) (c : Core S)
      → Backed vote c0 c
      → ((slot i : ℤ) → voted c0.n c0.ballot ps slot i ≡ true → vote slot i ≡ true)
      → Backed vote c0 (receive_acks ps c)
  unfolding receive_acks voted
  receive_acks-Backed vote c0 [] c b v = b
  receive_acks-Backed vote c0 (p ∷ ps) c b v =
      receive_acks-Backed vote c0 ps _
        (receive_ack-Backed vote c0 c p b
          (λ slot i h. v slot i (unfold voted in ground (arith, h))))
        (λ slot i h. v slot i (ground (arith, h)))

  -- `receive` of an acknowledgement.
  receive-ack :
      (now : ℕ) (p : Packet) (c : Core S)
      → p.kind ≡ Kind.ack
      → receive execute now p c ≡ some (receive_ack execute p c)
  unfolding receive receive_kind receive_other follow_higher dispatch receive_ack
  receive-ack now p c e = rw e (ground arith)

  -- Packets, received one after the other.
  unfoldable pub receive_all : ℕ → List Packet → Core S → Option (Core S)
  receive_all now [] c = some c
  receive_all now (p ∷ ps) c = do c' ← receive execute now p c; receive_all now ps c'

  abbrev pub AreAcks : List Packet → Type 0
  AreAcks = All (λ p. p.kind ≡ Kind.ack)

  receive_all-acks :
      (now : ℕ) (ps : List Packet) (c : Core S)
      → AreAcks ps
      → receive_all now ps c ≡ some (receive_acks ps c)
  unfolding receive_all receive_acks
  receive_all-acks now [] c h = refl
  receive_all-acks now (p ∷ ps) c h =
      rw (receive-ack now p c h.0) (receive_all-acks now ps (receive_ack execute p c) h.1)

  -- A slot that is not committed at first, while no votes are counted, and is committed after a
  -- sequence of acknowledgements of any senders, ballots and records, has a majority of replicas
  -- behind it: each of them is the sender of one of these acknowledgements, which is of the core's
  -- ballot and names the slot. The committed record has that ballot.
  pub commit-HasQuorum :
      (now : ℕ) (ps : List Packet) (c d : Core S) (slot : ℤ) (r : Record)
      → AreAcks ps
      → c.votes ≡ []
      → is_committed slot c ≡ false
      → receive_all now ps c ≡ some d
      → find slot d.log ≡ some r
      → r.committed ≡ true
      → (r.ballot ≡ c.ballot) × HasQuorum c.n (voted c.n c.ballot ps) slot
  unfolding is_committed find
  commit-HasQuorum now ps c d slot r acks none_yet open_slot run found k =
      (receive_acks-Backed _ c ps c started (λ s i h. h)).commits slot r
        (ground (arith, receive_all-acks now ps c acks, run, found)) k open_slot
    where
      started : Backed (voted c.n c.ballot ps) c c
      started = record {
        n = refl;
        ballot = refl;
        votes = λ s i h. absurd (ground (arith, h, none_yet, contains-empty i));
        commits = λ s x h y fresh. absurd (ground (arith, h, y, fresh));
      }
