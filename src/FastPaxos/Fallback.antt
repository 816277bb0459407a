-- ===== src/FastPaxos/Fallback.antt =====
-- The classic ballot proposes what a fast quorum chose: `selectValue` of fastpaxos/recovery.go.
use Prim.Native.Nat.{bit_or, bit_and}
use mathlib.Core.List.{Memᴰ}
use native.Mathlib.Decide.{ℕ_discrete}
use consensus_arena.Prelude.{
  ℕ, zero, suc, ◌+◌, ◌/◌, ◌≤◌, ◌<◌, ◌≡◌, refl, ap, sym, subst, ◌∙◌, inl, inr, Bool, true, false,
  List, [], ◌∷◌, none, some, ◌==◌, ==_iff, arith, All, Bool-cases, length,
}
use consensus_arena.Prelude.Int.{ℤ, pos, leb_ℤ, ◌-ℤ◌}
use consensus_arena.Prelude.Maps.{Map, find, has}
use consensus_arena.Prelude.Bits.{
  bit, bit-bit_or, bit-bit_and, bit-le-one, ones, ones-and-or, ones-zero,
}
use consensus_arena.ReplicaSet.{Set, size, contains, intersection}
use consensus_arena.ReplicaSet.Members.{contains-bit}
use consensus_arena.ReplicaSet.Quorums.{IsAmong, quorums_meet, contains-among, size-intersection}
use consensus_arena.Paxos.Defs.{RequestId, id_beq, id_beq_iff, id_eq}
use consensus_arena.FastPaxos.Defs.{Record, Entry, fast_quorum_size}
use consensus_arena.FastPaxos.Choice.{
  first_supported, choose, select_value, scan_reports, newer_of, collect, minimum_support, newest,
  candidates,
}
use consensus_arena.FastPaxos.Selected.{
  IsFast, scan-fast, collect-fast, values_from, supports_from, support_of, support_of-supports_from,
  reporters,
}
use consensus_arena.FastPaxos.Support.{ones_mono, reporters_complete, reporters_sound}
use consensus_arena.FastPaxos.Candidates.{
  values_from-Keyed, reported-has, has_single, first_supported_sound, first_supported_total,
}

All-Mem : {A : Type 0} {P : A → Type 0} (xs : List A) → ((x : A) → Memᴰ x xs → P x) → All P xs
All-Mem [] h = tt
All-Mem (x ∷ xs) h = (h x (Memᴰ.head refl), All-Mem xs (λ y m. h y (Memᴰ.tail m)))

bit_of_contains : (s i : ℕ) → i < 64 → contains s (pos i) ≡ true → bit s i ≡ 1
bit_of_contains s i lt h = ground (arith, contains-bit s i, bit-le-one s i)

contains_of_bit : (s i : ℕ) → i < 64 → bit s i ≡ 1 → contains s (pos i) ≡ true
contains_of_bit s i lt h = ground (arith, contains-bit s i)

bit-zero : (i : ℕ) → bit 0 i ≡ 0
unfolding bit
bit-zero zero = refl
bit-zero (suc i) = bit-zero i

support_of-nil : (id : RequestId) → support_of id [] ≡ 0
unfolding find
support_of-nil id = refl

true-false : (b : Bool) → b ≡ true → b ≡ false → ⊥
true-false b p r = ground (arith, p, r)

choose_one :
    (t : Entry) (values : Map RequestId Record) (supports : Map RequestId Set) (minimum : ℤ)
    → (length values == 1) ≡ true
    → choose t values supports minimum ≡ some (t.value, true)
unfolding choose
choose_one t values supports minimum one = rw (one, choose) refl

choose_many :
    (t : Entry) (values : Map RequestId Record) (supports : Map RequestId Set) (minimum : ℤ)
    (w : Record)
    → (length values == 1) ≡ false
    → t.epoch ≡ 0
    → first_supported minimum values supports ≡ some w
    → choose t values supports minimum ≡ some (w, true)
unfolding choose
choose_many t values supports minimum w many epoch pick = rw (many, epoch, pick, choose) refl

module _ (n : ℕ) (reports : Map ℕ Entry) (a q : Set) (v : RequestId) (le : n ≤ 64)
    (among_a : IsAmong n a) (among_q : IsAmong n q)
    (voters : (i : ℕ) (e : Entry) → Memᴰ (i, e) reports → contains q (pos i) ≡ true)
    (same : (i : ℕ) (e : Entry) → Memᴰ (i, e) reports → contains a (pos i) ≡ true → e.value.id ≡ v)
    (present : (i : ℕ)
      → contains a (pos i) ≡ true
      → contains q (pos i) ≡ true
      → (e : Entry) × Memᴰ (i, e) reports) where
  abbrev supports : Map RequestId Set
  supports = supports_from reports []

  numbers : All (λ (x : ℕ × Entry). x.0 < 64) reports
  numbers =
      All-Mem reports (λ x m. omega (arith, contains-among n q x.0 le among_q (voters x.0 x.1 m)))

  support : (id : RequestId) → support_of id supports ≡ reporters id reports 0
  support id =
      support_of-supports_from id reports [] ∙ ap (reporters id reports) (support_of-nil id)

  -- The fast voters that answered all stand behind the request.
  shared-le : ones 64 (bit_and a q) ≤ ones 64 (reporters v reports 0)
  shared-le = ones_mono 64 (bit_and a q) (reporters v reports 0) λ i lt h.
      let in_a =
        contains_of_bit a i lt
          (omega (arith, h, bit-bit_and a q i, bit-le-one a i, bit-le-one q i)) in
      let in_q =
        contains_of_bit q i lt
          (omega (arith, h, bit-bit_and a q i, bit-le-one a i, bit-le-one q i)) in
      let (e, m) = present i in_a in_q in reporters_complete v reports 0 i e lt m (same i e m in_a)

  -- The replicas behind another request answered and are no fast voters.
  other_in :
      (id : RequestId) (i : ℕ)
      → i < 64
      → bit (reporters id reports 0) i ≡ 1
      → (e : Entry) × Memᴰ (i, e) reports × (e.value.id ≡ id)
  other_in id i lt h = elim (reporters_sound id reports 0 i numbers h) [
    | inl nothing ↦ absurd (omega (arith, nothing, bit-zero i))
    | inr found ↦ found
  ]

  other-le :
      (id : RequestId)
      → (id ≡ v → ⊥)
      → ones 64 (reporters id reports 0) + ones 64 (bit_and a q) ≤ ones 64 q
  other-le id ne =
      let u = reporters id reports 0 in
      let s = bit_and a q in omega (arith, ones-and-or 64 u s, ones-zero 64, apart, within)
    where
      apart : ones 64 (bit_and (reporters id reports 0) (bit_and a q)) ≤ ones 64 0
      apart = ones_mono 64 _ 0 λ i lt h.
          let s : ℕ = bit_and a q in
          let u : ℕ = reporters id reports 0 in
          let (e, m, alike) =
            other_in id i lt
              (omega (arith, h, bit-bit_and u s i, bit-le-one u i, bit-le-one s i)) in
          let in_a = contains_of_bit a i lt (
            omega (
              arith,
              h,
              bit-bit_and u s i,
              bit-bit_and a q i,
              bit-le-one a i,
              bit-le-one q i,
              bit-le-one u i,
            )) in
          absurd (ne (sym alike ∙ same i e m in_a))

      within : ones 64 (bit_or (reporters id reports 0) (bit_and a q)) ≤ ones 64 q
      within = ones_mono 64 _ q λ i lt h.
          let s : ℕ = bit_and a q in
          let u : ℕ = reporters id reports 0 in
          elim (ℕ_discrete (bit u i) 1) as (λ _. bit q i ≡ 1) [
            | yes one ↦
                let (e, m, alike) = other_in id i lt one in bit_of_contains q i lt (voters i e m)
            | no none_of ↦ omega (
              arith,
              h,
              none_of,
              bit-bit_or u s i,
              bit-bit_and a q i,
              bit-le-one a i,
              bit-le-one q i,
              bit-le-one u i,
            )
          ]

  -- The fast quorum's request has enough support, any other has not.
  module _ (fast : fast_quorum_size n ≤ size a) (majority : n / 2 < size q) where
    shared-bound : size a + size q ≤ ones 64 (bit_and a q) + n
    shared-bound = unfold size intersection in size-intersection n a q among_a among_q

    abbrev minimum : ℤ
    minimum = minimum_support q (fast_quorum_size n) n

    enough : leb_ℤ minimum (pos (size (support_of v supports))) ≡ true
    unfolding size ◌-ℤ◌
    enough = rw (support v) (ground (arith, shared-bound, shared-le, fast))

    short :
        (id : RequestId)
        → (id ≡ v → ⊥)
        → leb_ℤ minimum (pos (size (support_of id supports))) ≡ false
    unfolding size ◌-ℤ◌ fast_quorum_size
    short id ne = rw (support id) (ground (arith, shared-bound, other-le id ne, fast, majority))

    some_voter : has v (values_from reports []) ≡ true
    some_voter =
        let (i, below, in_a, in_q) =
          quorums_meet n a q le among_a among_q
            (unfold fast_quorum_size in omega (arith, fast, majority)) in
        let (e, m) = present i in_a in_q in
        subst (λ id. has id (values_from reports []) ≡ true) (same i e m in_a)
          (reported-has i e reports [] m)

    picked :
        (t : Entry)
        → t.epoch ≡ 0
        → has t.value.id (values_from reports []) ≡ true
        → (w : Record) × (choose t (values_from reports []) supports minimum ≡ some (w, true))
          × (w.id ≡ v)
    picked t epoch there =
        let values = values_from reports [] in
        elim (Bool-cases (length values == 1))
          as (λ _.
            (w : Record) × (choose t (values_from reports []) supports minimum ≡ some (w, true))
            × (w.id ≡ v)) [
              | inl one ↦ (
                t.value,
                choose_one t values supports minimum one,
                has_single t.value.id v values ((==_iff (length values) 1).0 one) there some_voter,
              )
              | inr many ↦
                  let (w, pick) =
                    first_supported_total minimum values supports v some_voter enough in
                  (
                    w,
                    choose_many t values supports minimum w many epoch pick,
                    only_v w (
                        first_supported_sound minimum values supports w
                          (values_from-Keyed reports [] tt) pick),
                  )
            ]
      where
        only_v :
            (w : Record) → leb_ℤ minimum (pos (size (support_of w.id supports))) ≡ true → w.id ≡ v
        only_v w h = elim (Bool-cases (id_beq w.id v)) [
          | inl alike ↦ (id_beq_iff w.id v).0 alike
          | inr unlike ↦
              absurd
                (true-false _ h (short w.id (λ e. true-false _ ((id_beq_iff w.id v).1 e) unlike)))
        ]

scan-first :
    (reports : Map ℕ Entry) (i : ℕ) (e : Entry)
    → All IsFast reports
    → Memᴰ (i, e) reports
    → (t : Entry) × (scan_reports reports none ≡ newest (some t))
      × (t.epoch ≡ 0)
      × (t.round ≡ 1)
      × (j : ℕ) × Memᴰ (j, t) reports
unfolding scan_reports newer_of
scan-first [] i e h m = elim m [ ]
scan-first ((j, d) ∷ reports) i e h m =
    (d, ground (arith, h, scan-fast reports d h.0.1 h.0.2 h.1), h.0.1, h.0.2, j, Memᴰ.head refl)

select_value-fast :
    (reports : Map ℕ Entry) (q : Set) (f n : ℕ) (t : Entry)
    → scan_reports reports none ≡ newest (some t)
    → collect t reports [] [] ≡ candidates (values_from reports []) (supports_from reports [])
    → select_value reports q f n
      ≡ choose t (values_from reports []) (supports_from reports []) (minimum_support q f n)
unfolding select_value choose
select_value-fast reports q f n t e d = rw (e, d, select_value) refl

-- Let the replicas a be a fast quorum of n replicas, at most 64, and the replicas q be a majority. Let
-- the reports for a slot be votes of the fast round by replicas of q, let every replica of both a
-- and q report, and let every report of a replica of a be for the request v. Then `selectValue`
-- does not panic and selects a record of v.
pub fast_chosen_selected :
    (n : ℕ) (reports : Map ℕ Entry) (a q : Set) (v : RequestId)
    → n ≤ 64
    → IsAmong n a
    → IsAmong n q
    → fast_quorum_size n ≤ size a
    → n / 2 < size q
    → All IsFast reports
    → ((i : ℕ) (e : Entry) → Memᴰ (i, e) reports → contains q (pos i) ≡ true)
    → ((i : ℕ) (e : Entry) → Memᴰ (i, e) reports → contains a (pos i) ≡ true → e.value.id ≡ v)
    → ((i : ℕ)
        → contains a (pos i) ≡ true
        → contains q (pos i) ≡ true
        → (e : Entry) × Memᴰ (i, e) reports)
    → (w : Record) × (select_value reports q (fast_quorum_size n) n ≡ some (w, true)) × (w.id ≡ v)
fast_chosen_selected n reports a q v le among_a among_q fast majority votes voters same present =
    let (i, below, in_a, in_q) =
      quorums_meet n a q le among_a among_q
        (unfold fast_quorum_size in omega (arith, fast, majority)) in
    let (e, m) = present i in_a in_q in
    let (t, scanned, epoch, round, j, reported) = scan-first reports i e votes m in
    let (w, chosen, alike) =
      picked n reports a q v le among_a among_q voters same present fast majority t epoch
        (reported-has j t reports [] reported) in
    (
      w,
      select_value-fast reports q (fast_quorum_size n) n t scanned
            (collect-fast reports t [] [] epoch round votes)
          ∙ chosen,
      alike,
    )
