-- ===== src/Swift/Families.antt =====
-- The families that swift/quorum.go builds, and the ballots of their quorums.
use native.Mathlib.Nat.{add-mul-div_right, div-eq_of_lt, mod-eq_of_lt, mul-add-mod_self_right}
use consensus_arena.Prelude.{
  ℕ, zero, suc, ◌+◌, ◌*◌, ◌/◌, ◌%◌, ◌≡◌, ◌≤◌, ◌<◌, refl, sym, ap, ◌∙◌, subst, Bool, true, false, [],
  ◌∷◌, Option, some, get_or, ◌==◌, if◌then◌else◌, length, All, arith, if_both, Bool-cases, inl, inr,
}
use consensus_arena.Prelude.Int.{
  int_eq, ℤ, pos, ◌+ℤ◌, ◌-ℤ◌, ◌*ℤ◌, ◌==ℤ◌, ==ℤ_iff, div_ℤ, int32, uint64,
}
use consensus_arena.Prelude.Maps.{Map, find, put, find-put}
use consensus_arena.ReplicaSet.{Set, contains}
use consensus_arena.Swift.Quorums.{
  QuorumsOfLeader, QuorumSet, quorums_of, leader_of, store, subsets_loop, subsets, empty_families,
  new_quorum_set, active_quorum, ballot_in, ballot_of,
}

-- The keys are k, k + 1 and so on.
abbrev Numbered : {V : Type 0} → ℕ → Map ℤ V → Type 0
Numbered k [] = Unit
Numbered k ((i, v) ∷ m) = (i ≡ pos k) × Numbered (suc k) m

module _ {V : Type 0} where
  put-Numbered :
      (v : V) (k i : ℕ) (m : Map ℤ V)
      → Numbered k m
      → k ≤ i
      → i < k + length m
      → Numbered k (put (pos i) v m) × (length (put (pos i) v m) ≡ length m)
  unfolding put
  put-Numbered v k i [] h le lt = ground (arith, le, lt)
  put-Numbered v k i ((j, w) ∷ m) (e, h) le lt =
      go (j ==ℤ pos i) refl (λ above. put-Numbered v (suc k) i m h above (omega (arith, lt)))
    where
      go :
          (b : Bool)
          → (j ==ℤ pos i) ≡ b
          → (suc k ≤ i → Numbered (suc k) (put (pos i) v m) × (length (put (pos i) v m) ≡ length m))
          → (let m' = if b then (pos i, v) ∷ m else (j, w) ∷ put (pos i) v m in
              Numbered k m' × (length m' ≡ suc (length m)))
      go true same ih = ((sym ((==ℤ_iff j (pos i)).0 same) ∙ e, h), refl)
      go false other ih =
          let rest = ih (ground (arith, le, other, e, ==ℤ_iff j (pos i))) in
          ((e, rest.0), ap suc rest.1)

  append-Numbered :
      (v : V) (k : ℕ) (m : Map ℤ V) → Numbered k m → Numbered k (put (pos (k + length m)) v m)
  unfolding put
  append-Numbered v k [] h = (ground arith, tt)
  append-Numbered v k ((j, w) ∷ m) (e, h) = go (j ==ℤ pos (k + suc (length m))) refl (
      subst (λ (i : ℕ). Numbered (suc k) (put (pos i) v m)) (omega arith)
        (append-Numbered v (suc k) m h))
    where
      go :
          (b : Bool)
          → (j ==ℤ pos (k + suc (length m))) ≡ b
          → Numbered (suc k) (put (pos (k + suc (length m))) v m)
          → Numbered k (
              if b
              then (pos (k + suc (length m)), v) ∷ m
              else (j, w) ∷ put (pos (k + suc (length m))) v m)
      go true same ih = ground (arith, same, e, ==ℤ_iff j (pos (k + suc (length m))))
      go false other ih = (e, ih)

-- A quorum goes behind the others of a family.
next-Numbered :
    {V : Type 0} (v : V) (m : Map ℤ V) → Numbered 0 m → Numbered 0 (put (pos (length m)) v m)
next-Numbered v m h =
    subst (λ (i : ℕ). Numbered 0 (put (pos i) v m)) (omega arith) (append-Numbered v 0 m h)

All-put :
    (P : ℤ × Set → Type 0) (i : ℤ) (q : Set) (m : QuorumsOfLeader)
    → P (i, q)
    → All P m
    → All P (put i q m)
unfolding put
All-put P i q [] p h = (p, tt)
All-put P i q ((j, s) ∷ m) p (own, h) = if_both (All P) (j ==ℤ i) (p, h) (own, All-put P i q m p h)

record Families (n : ℕ) (qs : QuorumSet) : Type 0 where
  numbered : Numbered 0 qs
  size : length qs ≡ n
  each : (a : ℕ) → Numbered 0 (quorums_of (pos a) qs)
  own : (a : ℕ) → All (λ (e : ℤ × Set). contains e.1 (pos a) ≡ true) (quorums_of (pos a) qs)

int32-small : (z : ℕ) → z < 2_147_483_648 → int32 (pos z) ≡ pos z
unfolding int32 uint64
int32-small z h = ground (arith, h)

mul_pos : (a b : ℕ) → pos a *ℤ pos b ≡ pos (a * b)
unfolding ◌*ℤ◌
mul_pos a b = ground arith

add_pos : (a b : ℕ) → pos a +ℤ pos b ≡ pos (a + b)
unfolding ◌+ℤ◌
add_pos a b = ground arith

-- The ballot of index k fits an int32.
ballot_fits :
    (k n a : ℕ)
    → k * n + a < 2_147_483_648
    → int32 (int32 (pos k *ℤ pos n) +ℤ pos a) ≡ pos (k * n + a)
ballot_fits k n a h =
    rw (mul_pos k n, int32-small (k * n) (omega (arith, h)), add_pos (k * n) a)
      (int32-small (k * n + a) h)

-- A ballot of a family stands for a quorum of it.
ballot_in-find :
    (a n k : ℕ) (q : Set) (l : QuorumsOfLeader) (b : ℕ)
    → Numbered k l
    → a < n
    → (k + length l) * n ≤ 2_147_483_648
    → ballot_in (pos a) n q l ≡ pos b
    → (i : ℕ) × (k ≤ i) × (i < k + length l) × (b ≡ i * n + a) × (find (pos i) l ≡ some q)
unfolding ballot_in find
ballot_in-find a n k q [] b h lt bound e = ground (arith, e)
ballot_in-find a n k q ((j, s) ∷ l) b (own, h) lt bound e = elim (Bool-cases (s == q)) [
  | inl same ↦ (
    k,
    omega arith,
    omega arith,
    ground (
      arith,
      e,
      same,
      subst (λ (i : ℤ). int32 (int32 (i *ℤ pos n) +ℤ pos a) ≡ pos (k * n + a)) (sym own)
          (ballot_fits k n a (omega (arith, lt, bound))),
    ),
    ground (arith, own, same, ==ℤ_iff j (pos k)),
  )
  | inr other ↦
      let (i, above, below, value, there) =
        ballot_in-find a n (suc k) q l b h lt (omega (arith, bound)) (ground (arith, e, other)) in
      (
        i,
        omega (arith, above),
        omega (arith, below),
        value,
        ground (arith, there, own, above, ==ℤ_iff j (pos i)),
      )
]

-- The remainder and the quotient of a ballot of leader a.
ballot_parts : (i n a : ℕ) → a < n → ((i * n + a) % n ≡ a) × ((i * n + a) / n ≡ i)
ballot_parts i n a h = (
  mul-add-mod_self_right i n a ∙ mod-eq_of_lt h,
  ap (λ z. z / n) (omega arith)
      ∙ add-mul-div_right a i (omega (arith, h))
      ∙ ap (λ z. z + i) (div-eq_of_lt h)
      ∙ omega arith,
)

store-Families :
    (n left id : ℕ) (q : Set) (qs : QuorumSet)
    → id + left ≤ n
    → Families n qs
    → Families n (store left id q qs)
unfolding store
store-Families n zero id q qs le h = h
store-Families n (suc left) id q qs le h =
    store-Families n left (suc id) q _ (omega (arith, le)) (go (contains q (pos id)) refl)
  where
    l : QuorumsOfLeader
    l = quorums_of (pos id) qs

    go :
        (b : Bool)
        → contains q (pos id) ≡ b
        → Families n (if b then put (pos id) (put (pos (length l)) q l) qs else qs)
    go false e = h
    go true e = stored
      where
        family : QuorumsOfLeader
        family = put (pos (length l)) q l

        inside : Numbered 0 (put (pos id) family qs) × (length (put (pos id) family qs) ≡ length qs)
        inside = put-Numbered family 0 id qs h.numbered (omega arith) (omega (arith, h.size, le))

        at :
            (a : ℕ)
            → quorums_of (pos a) (put (pos id) family qs)
              ≡ (if pos id ==ℤ pos a then family else quorums_of (pos a) qs)
        at a = ground (arith, find-put (pos id) (pos a) family qs)

        Owned : ℕ → ℤ × Set → Type 0
        Owned a e = contains e.1 (pos a) ≡ true

        owned :
            (a : ℕ) (b : Bool)
            → (pos id ==ℤ pos a) ≡ b
            → All (Owned a) (if b then family else quorums_of (pos a) qs)
        owned a false other = h.own a
        owned a true same =
            subst (λ (c : ℕ). All (Owned c) family) (ground (arith, same))
              (All-put (Owned id) (pos (length l)) q l e (h.own id))

        stored : Families n (put (pos id) family qs)
        stored = record {
          numbered = inside.0;
          size = inside.1 ∙ h.size;
          each = λ a.
              subst (Numbered 0) (sym (at a)) (
                if_both (Numbered 0) (pos id ==ℤ pos a) (next-Numbered q l (h.each id)) (h.each a));
          own = λ a. subst (All (Owned a)) (sym (at a)) (owned a (pos id ==ℤ pos a) refl);
        }

subsets_loop-Families :
    (n left i : ℕ) (wanted : ℤ) (q : Set) (qs : QuorumSet)
    → Families n qs
    → Families n (subsets_loop n left i wanted q qs)
unfolding subsets_loop
subsets_loop-Families n zero i wanted q qs h = h
subsets_loop-Families n (suc left) i wanted q qs h =
    subsets_loop-Families n left (suc i) wanted _ _ (
      subsets_loop-Families n left (suc i) _ _ _ (
        if_both (Families n) ((wanted -ℤ pos 1) ==ℤ pos 0)
          (store-Families n n 0 _ qs (omega arith) h) h))

Numbered-empty : (left id : ℕ) → Numbered id (empty_families left id)
Numbered-empty zero id = tt
Numbered-empty (suc left) id = (refl, Numbered-empty left (suc id))

length-empty : (left id : ℕ) → length (empty_families left id) ≡ left
length-empty zero id = refl
length-empty (suc left) id = ap suc (length-empty left (suc id))

quorums_of-empty : (k : ℤ) (left id : ℕ) → quorums_of k (empty_families left id) ≡ []
unfolding find
quorums_of-empty k zero id = refl
quorums_of-empty k (suc left) id = ground (arith, quorums_of-empty k left (suc id))

new-Families : (wanted : ℤ) (n : ℕ) → Families n (new_quorum_set wanted n)
unfolding new_quorum_set subsets
new-Families wanted n = subsets_loop-Families n n 0 wanted 0 _ (
    if_both (Families n) (wanted ==ℤ pos 0) (store-Families n n 0 0 _ (omega arith) none_yet)
      none_yet)
  where
    none_yet : Families n (empty_families n 0)
    none_yet = record {
      numbered = Numbered-empty n 0;
      size = length-empty n 0;
      each = λ a. subst (Numbered 0) (sym (quorums_of-empty (pos a) n 0)) tt;
      own = λ a.
          subst (All (λ (e : ℤ × Set). contains e.1 (pos a) ≡ true))
            (sym (quorums_of-empty (pos a) n 0)) tt;
    }

All-find :
    (P : Set → Type 0) (k : ℤ) (q : Set) (l : QuorumsOfLeader)
    → All (λ (e : ℤ × Set). P e.1) l
    → find k l ≡ some q
    → P q
unfolding find
All-find P k q [] h e = ground (arith, e)
All-find P k q ((j, s) ∷ l) (own, h) e = go (j ==ℤ k) e (All-find P k q l h)
  where
    go : (b : Bool) → (if b then some s else find k l) ≡ some q → (find k l ≡ some q → P q) → P q
    go true e ih = subst P (ap (λ (o : Option Set). get_or o s) e) own
    go false e ih = ih e

-- The quorum that a ballot of a leader stands for, among families of as many leaders.
active_quorum-index :
    (qs : QuorumSet) (a i : ℕ) (q : Set)
    → a < length qs
    → i < length (quorums_of (pos a) qs)
    → find (pos i) (quorums_of (pos a) qs) ≡ some q
    → active_quorum (pos (i * length qs + a)) qs ≡ some q
unfolding active_quorum leader_of div_ℤ
active_quorum-index qs a i q lt below there =
    let (owner, quotient) = ballot_parts i (length qs) a lt in
    rw (owner, quotient, mod-eq_of_lt below, there) (ground (arith, lt, below))

-- In the families that are built for n replicas, the ballot of a quorum of a leader, which is not -1,
-- has that leader as its remainder and stands for that quorum again, and the quorum contains the
-- leader, while the ballots of the leader fit int32.
pub active_quorum-ballot_of :
    (wanted : ℤ) (n a b : ℕ) (q : Set)
    → a < n
    → length (quorums_of (pos a) (new_quorum_set wanted n)) * n ≤ 2_147_483_648
    → ballot_of (pos a) q (new_quorum_set wanted n) ≡ pos b
    → (active_quorum (pos b) (new_quorum_set wanted n) ≡ some q)
      × (leader_of (pos b) n ≡ pos a)
      × (contains q (pos a) ≡ true)
unfolding ballot_of leader_of
active_quorum-ballot_of wanted n a b q lt bound e =
    let h = new-Families wanted n in
    let (i, above, below, value, there) =
      ballot_in-find a n 0 q (quorums_of (pos a) qs) b (h.each a) lt
        (bounded (length (quorums_of (pos a) qs)) bound)
        (subst (λ (m : ℕ). ballot_in (pos a) m q (quorums_of (pos a) qs) ≡ pos b) h.size e) in
    (
      subst (λ (c : ℕ). active_quorum (pos c) qs ≡ some q)
          (ap (λ (m : ℕ). i * m + a) h.size ∙ sym value)
          (active_quorum-index qs a i q (omega (arith, lt, h.size)) (omega (arith, below)) there),
      ap (λ (c : ℕ). pos (c % n)) value ∙ ap pos (ballot_parts i n a lt).0,
      All-find (λ (s : Set). contains s (pos a) ≡ true) (pos i) q (quorums_of (pos a) qs) (h.own a)
          there,
    )
  where
    qs : QuorumSet
    qs = new_quorum_set wanted n

    bounded : (m : ℕ) → m * n ≤ 2_147_483_648 → (0 + m) * n ≤ 2_147_483_648
    bounded m h = omega (arith, h)
