-- ===== src/Paxos/Paging.antt =====
-- The pages of a promise: paxos/recovery.go, `promise`.
use consensus_arena.Prelude.{
  ℕ, zero, suc, ◌+◌, ◌-◌, ◌*◌, ◌/◌, ◌≤◌, ◌≡◌, refl, ap, sym, ◌∙◌, List, [], ◌∷◌, ◌++◌, length, take,
  drop, length-take, arith, ==_iff, All,
}
use consensus_arena.Paxos.Defs.{Record, Packet, Core, rounds}
use consensus_arena.Paxos.Recovery.{pages_from, page_count, page_records, records_from, snapshot}

module _ {A : Type 0} where
  take-drop : (k : ℕ) (xs : List A) → take k xs ++ drop k xs ≡ xs
  take-drop zero xs = refl
  take-drop (suc k) [] = refl
  take-drop (suc k) (x ∷ xs) = ap (◌∷◌ x) (take-drop k xs)

  drop-nil : (k : ℕ) → drop {A = A} k [] ≡ []
  drop-nil zero = refl
  drop-nil (suc k) = refl

  drop-drop : (j k : ℕ) (xs : List A) → drop j (drop k xs) ≡ drop (k + j) xs
  drop-drop j zero xs = ap (λ (k : ℕ). drop k xs) (omega arith)
  drop-drop j (suc k) [] = drop-nil j ∙ sym (drop-nil (suc k + j))
  drop-drop j (suc k) (x ∷ xs) =
      drop-drop j k xs ∙ ap (λ (n : ℕ). drop n (x ∷ xs)) {x = suc (k + j)} (omega arith)

  drop-all : (k : ℕ) (xs : List A) → length xs ≤ k → drop k xs ≡ []
  drop-all k [] h = drop-nil k
  drop-all zero (x ∷ xs) h = absurd (omega arith)
  drop-all (suc k) (x ∷ xs) h = drop-all k xs (omega arith)

page_records-pages_from :
    (reply : Packet) (left page : ℕ) (values : List Record)
    → length values ≤ (page + left) * 128
    → page_records (pages_from reply left page values) ≡ drop (page * 128) values
unfolding pages_from
page_records-pages_from reply zero page values h = sym (drop-all (page * 128) values (omega arith))
page_records-pages_from reply (suc left) page values h =
    let rest = drop (page * 128) values in
    ap (λ l. take 128 rest ++ l)
      (page_records-pages_from reply left (suc page) values (omega arith)
        ∙ ap (λ k. drop k values) (omega arith)
        ∙ sym (drop-drop 128 (page * 128) values))
    ∙ take-drop 128 rest

page_count-enough : (k : ℕ) → k ≤ page_count k * 128
unfolding page_count
page_count-enough k = ground (arith, ==_iff ((k + 128 - 1) / 128) 0)

short_pages :
    (reply : Packet) (left page : ℕ) (values : List Record)
    → All (λ p. length p.records ≤ 128) (pages_from reply left page values)
unfolding pages_from
short_pages reply zero page values = tt
short_pages reply (suc left) page values = (
  omega (arith, length-take 128 (drop (page * 128) values)),
  short_pages reply left (suc page) values,
)

length-pages_from :
    (reply : Packet) (left page : ℕ) (values : List Record)
    → length (pages_from reply left page values) ≡ left
unfolding pages_from
length-pages_from reply zero page values = refl
length-pages_from reply (suc left) page values =
    ap suc (length-pages_from reply left (suc page) values)

-- The pages of a promise together carry the log's records from the floor to its high slot, in
-- order and each once, and no page has more than 128 of them.
pub snapshot_lem :
    {S : Type 0} (p : Packet) (c : Core S)
    → (page_records (snapshot p c) ≡ records_from (rounds p.floor c.high) p.floor c.log)
      × All (λ (q : Packet). length q.records ≤ 128) (snapshot p c)
snapshot_lem p c =
    let values = records_from (rounds p.floor c.high) p.floor c.log in
    (
      page_records-pages_from _ (page_count (length values)) 0 values
          (omega (arith, page_count-enough (length values))),
      short_pages _ (page_count (length values)) 0 values,
    )
