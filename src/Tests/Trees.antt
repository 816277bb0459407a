-- ===== src/Tests/Trees.antt =====
-- A sorted association list in place of the ordered map of state/state.go.
use consensus_arena.Prelude.{
  ◌≡◌, refl, subst, inl, inr, Bool, [], ◌∷◌, some, if◌then◌else◌, All, length, filterb, arith,
  Bool-cases, if_both,
}
use consensus_arena.Prelude.Int.{int_eq, ◌==ℤ◌, ==ℤ_iff, ltb_ℤ, ◌<ℤ◌, negsuc}
use consensus_arena.Prelude.Maps.{Map, find}
use consensus_arena.State.{Key, Value, key_comparator}
use consensus_arena.State.Tree.{TreeMap, Ascending, key_comparator_lt, lt_key_comparator}

abbrev pub Above : Key → Map Key Value → Type 0
Above k m = All (λ f. key_comparator k f.0 ≡ negsuc 0) m

abbrev pub add_entry : Key → Value → Map Key Value → Map Key Value
add_entry k v [] = (k, v) ∷ []
add_entry k v ((j, w) ∷ m) =
    let rest = add_entry k v m in
    if j ==ℤ k then (k, v) ∷ m else if ltb_ℤ k j then (k, v) ∷ (j, w) ∷ m else (j, w) ∷ rest

comparator_trans :
    (a b c : Key)
    → key_comparator a b ≡ negsuc 0
    → key_comparator b c ≡ negsuc 0
    → key_comparator a c ≡ negsuc 0
comparator_trans a b c p q =
    lt_key_comparator a c (omega (arith, key_comparator_lt a b p, key_comparator_lt b c q))

Above-trans :
    (a b : Key) (m : Map Key Value) → key_comparator a b ≡ negsuc 0 → Above b m → Above a m
Above-trans a b [] p h = tt
Above-trans a b ((k, v) ∷ m) p h = (comparator_trans a b k p h.0, Above-trans a b m p h.1)

Above-add_entry :
    (a k : Key) (v : Value) (m : Map Key Value)
    → key_comparator a k ≡ negsuc 0
    → Above a m
    → Above a (add_entry k v m)
Above-add_entry a k v [] p h = (p, tt)
Above-add_entry a k v ((j, w) ∷ m) p h =
    if_both (Above a) (j ==ℤ k) (p, h.1)
      (if_both (Above a) (ltb_ℤ k j) (p, h) (h.0, Above-add_entry a k v m p h.1))

pub add_entry-Ascending :
    (k : Key) (v : Value) (m : Map Key Value)
    → Ascending key_comparator m
    → Ascending key_comparator (add_entry k v m)
add_entry-Ascending k v [] h = (tt, tt)
add_entry-Ascending k v ((j, w) ∷ m) h = elim (Bool-cases (j ==ℤ k)) [
  | inl e ↦ rw e (subst (λ i. Above i m) ((==ℤ_iff j k).0 e) h.0, h.1)
  | inr e ↦ elim (Bool-cases (ltb_ℤ k j)) [
    | inl l ↦
        let below : key_comparator k j ≡ negsuc 0 = lt_key_comparator k j (ground (arith, l)) in
        rw (e, l) ((below, Above-trans k j m below h.0), h)
    | inr g ↦
        let above : j <ℤ k = ground (arith, e, g, ==ℤ_iff j k) in
        rw (e, g)
          (Above-add_entry j k v m (lt_key_comparator j k above) h.0, add_entry-Ascending k v m h.1)
  ]
]

pub find-add_entry :
    (k j : Key) (v : Value) (m : Map Key Value)
    → find j (add_entry k v m) ≡ (if k ==ℤ j then some v else find j m)
unfolding find
find-add_entry k j v [] = refl
find-add_entry k j v ((i, w) ∷ m) =
    ground (arith, ==ℤ_iff k j, ==ℤ_iff i k, ==ℤ_iff i j, find-add_entry k j v m)

Above-filterb :
    (a : Key) (p : Key × Value → Bool) (m : Map Key Value) → Above a m → Above a (filterb p m)
Above-filterb a p [] h = tt
Above-filterb a p (e ∷ m) h =
    if_both (Above a) (p e) (h.0, Above-filterb a p m h.1) (Above-filterb a p m h.1)

pub filterb-Ascending :
    (p : Key × Value → Bool) (m : Map Key Value)
    → Ascending key_comparator m
    → Ascending key_comparator (filterb p m)
filterb-Ascending p [] h = tt
filterb-Ascending p (e ∷ m) h =
    if_both (Ascending key_comparator) (p e) (Above-filterb e.0 p m h.0, filterb-Ascending p m h.1)
      (filterb-Ascending p m h.1)

abbrev pub sorted_list : TreeMap key_comparator
sorted_list = record {
  Tree = (m : Map Key Value) × Ascending key_comparator m;
  empty = ([], tt);
  insert = λ k v t. (add_entry k v t.0, add_entry-Ascending k v t.0 t.1);
  get = λ k t. find k t.0;
  size = λ t. length t.0;
  select = λ p t. (filterb (λ e. p e.0 e.1) t.0, filterb-Ascending (λ e. p e.0 e.1) t.0 t.1);
  entries = λ t. t.0;
  entries-empty = refl;
  entries-ascending = λ t. t.1;
  entries-select = λ p t. refl;
  get-entries = λ k t. refl;
  get-insert = λ k j v t. find-add_entry k j v t.0;
  size-entries = λ t. refl;
}
