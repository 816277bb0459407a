-- ===== src/State/Commute.antt =====
-- What `Conflict` of state/state.go promises: commands that do not conflict commute.
use mathlib.Core.Option
use consensus_arena.Prelude.{
  ◌≡◌, refl, ap, sym, subst, ◌∙◌, inl, inr, Bool, true, false, not, ◌&&◌, [], ◌∷◌, Option, none,
  some, ◌==◌, if◌then◌else◌, filterb, All, arith, Bool-cases, Option-cases,
}
use consensus_arena.Prelude.Int.{int_eq, ◌==ℤ◌, ==ℤ_iff, leb_ℤ}
use consensus_arena.Prelude.Maps.{Map, find}
use consensus_arena.State.{
  Key, Value, Command, nil, op_put, op_get, op_scan, key_comparator, le_uint64, scan_end, conflict,
}
use consensus_arena.State.Tree.{TreeMap, Ascending, eq_of_find}
use consensus_arena.State.Store.{concat, values_of, in_range, execute, get_result, scan_result}

-- Keeping the entries whose keys pass a test.
All-filter {ℓ} :
    (P : Key × Value → Type ℓ) (p : Key → Bool) (m : Map Key Value)
    → All P m
    → All P (filterb (λ e. p e.0) m)
All-filter P p [] h = tt
All-filter P p (e ∷ m) h = elim (Bool-cases (p e.0)) [
  | inl y ↦ rw y (h.0, All-filter P p m h.1)
  | inr n ↦ rw n (All-filter P p m h.1)
]

Ascending-filter :
    (p : Key → Bool) (m : Map Key Value)
    → Ascending key_comparator m
    → Ascending key_comparator (filterb (λ e. p e.0) m)
Ascending-filter p [] h = tt
Ascending-filter p (e ∷ m) h = elim (Bool-cases (p e.0)) [
  | inl y ↦ rw y (All-filter _ p m h.0, Ascending-filter p m h.1)
  | inr n ↦ rw n (Ascending-filter p m h.1)
]

find-filter :
    (p : Key → Bool) (j : Key) (m : Map Key Value)
    → find j (filterb (λ e. p e.0) m) ≡ (if p j then find j m else none)
unfolding find
find-filter p j [] = ground arith
find-filter p j ((i, v) ∷ m) = ground (arith, ==ℤ_iff i j, find-filter p j m)

module _ (trees : TreeMap key_comparator) where
  open trees use {
    Tree, insert, get, select, entries, entries-ascending, entries-select, get-entries, get-insert,
  }

  find-insert :
      (k j : Key) (v : Value) (t : Tree)
      → find j (entries (insert k v t)) ≡ (if k ==ℤ j then some v else find j (entries t))
  find-insert k j v t = rw (← get-entries j (insert k v t), ← get-entries j t) (get-insert k j v t)

  -- Writes of different keys leave the same entries in either order.
  insert_swap :
      (k j : Key) (v w : Value) (t : Tree)
      → (k ==ℤ j) ≡ false
      → entries (insert k v (insert j w t)) ≡ entries (insert j w (insert k v t))
  insert_swap k j v w t ne = eq_of_find _ _ (entries-ascending _) (entries-ascending _) λ i.
      ground (
        arith,
        find-insert k i v (insert j w t),
        find-insert j i w t,
        find-insert j i w (insert k v t),
        find-insert k i v t,
        ==ℤ_iff k i,
        ==ℤ_iff j i,
        ==ℤ_iff k j,
      )

  -- A write outside a scan's range is not seen by it.
  select_insert :
      (lb ub k : Key) (v : Value) (t : Tree)
      → in_range lb ub k v ≡ false
      → entries (select (in_range lb ub) (insert k v t)) ≡ entries (select (in_range lb ub) t)
  select_insert lb ub k v t out =
      rw (entries-select (in_range lb ub) (insert k v t), entries-select (in_range lb ub) t)
        (eq_of_find _ _ (Ascending-filter test _ (entries-ascending _))
          (Ascending-filter test _ (entries-ascending _)) agree)
    where
      test : Key → Bool
      test j = leb_ℤ lb j && leb_ℤ j ub

      agree :
          (j : Key)
          → find j (filterb (λ e. test e.0) (entries (insert k v t)))
            ≡ find j (filterb (λ e. test e.0) (entries t))
      agree j = ground (
        arith,
        find-filter test j (entries (insert k v t)),
        find-filter test j (entries t),
        find-insert k j v t,
        ==ℤ_iff k j,
      )

  -- The answer of a command that is no PUT.
  abbrev read_result : Command → Tree → Option Value
  read_result c st =
      if c.op == op_get
      then some (get_result trees (get c.k st))
      else if c.op == op_scan
      then elim (le_uint64 c.v) [ none ↦ none | some count ↦ some (scan_result trees c.k count st) ]
      else some nil

  -- Whether a command that is no PUT leaves a key unread.
  abbrev avoids : Command → Key → Bool
  avoids c key =
      if c.op == op_get
      then not (key ==ℤ c.k)
      else if c.op == op_scan
      then elim (le_uint64 c.v) [
        | none ↦ true
        | some count ↦ not (in_range c.k (scan_end c.k count) key nil)
      ]
      else true

  read_insert :
      (c : Command) (k : Key) (v : Value) (t : Tree)
      → avoids c k ≡ true
      → read_result c (insert k v t) ≡ read_result c t
  read_insert c k v t h = elim (Option-cases (le_uint64 c.v)) [
    | inl e ↦ ground (arith, e, get-insert k c.k v t)
    | inr (n, e) ↦ ground (
      arith,
      e,
      get-insert k c.k v t,
      λ (out : in_range c.k (scan_end c.k n) k v ≡ false).
          ap (λ (m : Map Key Value). concat (values_of m))
            (select_insert c.k (scan_end c.k n) k v t out),
    )
  ]

  execute_of_write :
      (c : Command) (t : Tree)
      → (c.op == op_put) ≡ true
      → execute trees c t ≡ some (insert c.k c.v t, nil)
  unfolding execute
  execute_of_write c t h = rw h refl

  execute_of_read :
      (c : Command) (t : Tree)
      → (c.op == op_put) ≡ false
      → execute trees c t ≡ Option.map (λ r. (t, r)) (read_result c t)
  unfolding execute
  execute_of_read c t h = ground arith

  conflict_write_read :
      (a b : Command)
      → (a.op == op_put) ≡ true
      → (b.op == op_put) ≡ false
      → conflict a b ≡ some false
      → avoids b a.k ≡ true
  unfolding conflict
  conflict_write_read a b p q h = ground arith

  conflict_read_write :
      (a b : Command)
      → (a.op == op_put) ≡ false
      → (b.op == op_put) ≡ true
      → conflict a b ≡ some false
      → avoids a b.k ≡ true
  unfolding conflict
  conflict_read_write a b p q h = ground arith

  conflict_write_write :
      (a b : Command)
      → (a.op == op_put) ≡ true
      → (b.op == op_put) ≡ true
      → conflict a b ≡ some false
      → (a.k ==ℤ b.k) ≡ false
  unfolding conflict
  conflict_write_write a b p q h = ground (arith, ==ℤ_iff a.k b.k)

  write_inverse :
      (c : Command) (t u : Tree) (r : Value)
      → (c.op == op_put) ≡ true
      → execute trees c t ≡ some (u, r)
      → (u ≡ insert c.k c.v t) × (r ≡ nil)
  write_inverse c t u r p run = ground (arith, execute_of_write c t p)

  read_inverse :
      (c : Command) (t u : Tree) (r : Value)
      → (c.op == op_put) ≡ false
      → execute trees c t ≡ some (u, r)
      → (u ≡ t) × (read_result c t ≡ some r)
  read_inverse c t u r p run = ground (arith, execute_of_read c t p)

  read_runs :
      (c : Command) (t : Tree) (r : Value)
      → (c.op == op_put) ≡ false
      → read_result c t ≡ some r
      → execute trees c t ≡ some (t, r)
  read_runs c t r p answer = execute_of_read c t p ∙ ap (Option.map (λ r. (t, r))) answer

  -- A run of `b` then `a` with the results of a run of `a` then `b`, and the same entries.
  abbrev pub Swapped : Command → Command → Tree → Tree → Value → Value → Type 0
  Swapped a b t tab ra rb =
      (tb : Tree) × (tba : Tree) × (execute trees b t ≡ some (tb, rb))
      × (execute trees a tb ≡ some (tba, ra))
      × (entries tba ≡ entries tab)

  module _ (a b : Command) (t ta tab : Tree) (ra rb : Value)
      (run_a : execute trees a t ≡ some (ta, ra))
      (run_b : execute trees b ta ≡ some (tab, rb)) where
    swap_reads : (a.op == op_put) ≡ false → (b.op == op_put) ≡ false → Swapped a b t tab ra rb
    swap_reads p q =
        let (same_a, answer_a) = read_inverse a t ta ra p run_a in
        let (same_b, answer_b) = read_inverse b ta tab rb q run_b in
        (
          t,
          t,
          read_runs b t rb q (subst (λ u. read_result b u ≡ some rb) same_a answer_b),
          read_runs a t ra p answer_a,
          ap entries (sym same_a ∙ sym same_b),
        )

    swap_write_read :
        (a.op == op_put) ≡ true
        → (b.op == op_put) ≡ false
        → avoids b a.k ≡ true
        → Swapped a b t tab ra rb
    swap_write_read p q avoided =
        let (wrote, r) = write_inverse a t ta ra p run_a in
        let (same, answer) = read_inverse b ta tab rb q run_b in
        (
          t,
          insert a.k a.v t,
          read_runs b t rb q (
              sym (read_insert b a.k a.v t avoided)
              ∙ subst (λ u. read_result b u ≡ some rb) wrote answer),
          execute_of_write a t p ∙ ap (λ (x : Value). some (insert a.k a.v t, x)) (sym r),
          ap entries (sym wrote ∙ sym same),
        )

    swap_read_write :
        (a.op == op_put) ≡ false
        → (b.op == op_put) ≡ true
        → avoids a b.k ≡ true
        → Swapped a b t tab ra rb
    swap_read_write p q avoided =
        let (same, answer) = read_inverse a t ta ra p run_a in
        let (wrote, r) = write_inverse b ta tab rb q run_b in
        (
          insert b.k b.v t,
          insert b.k b.v t,
          execute_of_write b t q ∙ ap (λ (x : Value). some (insert b.k b.v t, x)) (sym r),
          read_runs a (insert b.k b.v t) ra p (read_insert a b.k b.v t avoided ∙ answer),
          ap entries (ap (insert b.k b.v) (sym same) ∙ sym wrote),
        )

    swap_writes :
        (a.op == op_put) ≡ true
        → (b.op == op_put) ≡ true
        → (a.k ==ℤ b.k) ≡ false
        → Swapped a b t tab ra rb
    swap_writes p q ne =
        let (wrote_a, r_a) = write_inverse a t ta ra p run_a in
        let (wrote_b, r_b) = write_inverse b ta tab rb q run_b in
        (
          insert b.k b.v t,
          insert a.k a.v (insert b.k b.v t),
          execute_of_write b t q ∙ ap (λ (x : Value). some (insert b.k b.v t, x)) (sym r_b),
          execute_of_write a (insert b.k b.v t) p
              ∙ ap (λ (x : Value). some (insert a.k a.v (insert b.k b.v t), x)) (sym r_a),
          insert_swap a.k b.k a.v b.v t ne
              ∙ ap entries (ap (insert b.k b.v) (sym wrote_a) ∙ sym wrote_b),
        )

    commute : conflict a b ≡ some false → Swapped a b t tab ra rb
    commute free = elim (Bool-cases (a.op == op_put)) [
      | inl p ↦ elim (Bool-cases (b.op == op_put)) [
        | inl q ↦ swap_writes p q (conflict_write_write a b p q free)
        | inr q ↦ swap_write_read p q (conflict_write_read a b p q free)
      ]
      | inr p ↦ elim (Bool-cases (b.op == op_put)) [
        | inl q ↦ swap_read_write p q (conflict_read_write a b p q free)
        | inr q ↦ swap_reads p q
      ]
    ]

  -- Two commands that `Conflict` lets pass commute: if `a` and then `b` run, so do `b` and then
  -- `a`, each with the same result, and the trees that they leave have the same entries.
  pub conflict-commute :
      (a b : Command) (t ta tab : Tree) (ra rb : Value)
      → conflict a b ≡ some false
      → execute trees a t ≡ some (ta, ra)
      → execute trees b ta ≡ some (tab, rb)
      → Swapped a b t tab ra rb
  conflict-commute a b t ta tab ra rb free run_a run_b = commute a b t ta tab ra rb run_a run_b free
