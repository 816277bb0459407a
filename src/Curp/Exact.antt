-- ===== src/Curp/Exact.antt =====
-- The conflict index of curp/conflicts.go against `Conflict` of state/state.go.
use consensus_arena.Prelude.{
  ℕ, zero, suc, ◌≡◌, ◌≤◌, refl, sym, ap, ◌∙◌, Bool, true, false, not, ◌&&◌, ◌||◌, List, [], ◌∷◌,
  none, some, if◌then◌else◌, ltb, All, arith, ◌==◌, is_some, Option-cases, Bool-cases, inl, inr,
}
use consensus_arena.Prelude.Int.{int_eq, ℤ, pos, ◌==ℤ◌, ==ℤ_iff, ltb_ℤ, leb_ℤ}
use consensus_arena.Prelude.Maps.{Map, find, has}
use consensus_arena.State.{
  Command, Key, op_none, op_put, op_get, op_scan, conflict, conflict_any, le_uint64, scan_end,
}
use consensus_arena.Paxos.Defs.{RequestId, id_eq, Request}
use consensus_arena.Curp.Conflicts.{ConflictIndex, count_at, any_scan, any_write, conflicts}
use consensus_arena.Curp.Counts.{any, count, count-any, any-or, any_ext, any_mono, counted}
use consensus_arena.Curp.Indexed.{Indexes, Holds, is_scan, keyed, written, any_entry}
use consensus_arena.Curp.Holding.{Indexes-Holds}

abbrev is_noop : Request → Bool
is_noop s = s.command.op == op_none

-- The commands that are not no-ops.
abbrev pub commands : List Request → List Command
commands [] = []
commands (s ∷ rs) = let rest = commands rs in if is_noop s then rest else s.command ∷ rest

-- A SCAN has its count: `validate` of state/validation.go lets no other pass.
abbrev pub HasCount : Request → Type 0
HasCount s = s.command.op ≡ op_scan → is_some (le_uint64 s.command.v) ≡ true

conflict_any-hit :
    (c : Command) (hit : Request → Bool)
    → ((s : Request) → HasCount s → is_noop s ≡ false → conflict c s.command ≡ some (hit s))
    → (rs : List Request) → All HasCount rs
    → conflict_any c (commands rs) ≡ some (any (λ s. not (is_noop s) && hit s) rs)
unfolding conflict_any
conflict_any-hit c hit h [] ok = refl
conflict_any-hit c hit h (s ∷ rs) (o, ok) =
    go (is_noop s) (hit s) (h s o) (conflict_any-hit c hit h rs ok)
  where
    go :
        (b b' : Bool)
        → (b ≡ false → conflict c s.command ≡ some b')
        → conflict_any c (commands rs) ≡ some (any (λ t. not (is_noop t) && hit t) rs)
        → conflict_any c (if b then commands rs else s.command ∷ commands rs)
          ≡ some ((not b && b') || any (λ t. not (is_noop t) && hit t) rs)
    go true b' e ih = ih
    go false true e ih = rw (conflict_any, e refl) refl
    go false false e ih = rw (conflict_any, e refl) ih

same_key : (a b : Key) → (leb_ℤ a b && leb_ℤ b a) ≡ (a ==ℤ b)
same_key a b = ground (arith, ==ℤ_iff a b)

count_at-Holds :
    (k : Key) (n : ℕ) (m : Map Key ℤ)
    → find k m ≡ counted n
    → ltb_ℤ (pos 0) (count_at k m) ≡ ltb 0 n
count_at-Holds k zero m h = ground (arith, h)
count_at-Holds k (suc n) m h = ground (arith, h)

module _ (r : Request) where
  conflict-get :
      r.command.op ≡ op_get
      → (s : Request) → HasCount s
      → is_noop s ≡ false
      → conflict r.command s.command ≡ some (written r.command.k s)
  unfolding conflict
  conflict-get get s ok op = ground (arith, get, ok, op, same_key s.command.k r.command.k)

-- A scan that covers the key.
abbrev covers_key : Key → Request → Bool
covers_key k s = elim (le_uint64 s.command.v) [
  | none ↦ false
  | some n ↦ leb_ℤ s.command.k k && leb_ℤ k (scan_end s.command.k n)
]

abbrev put_hit : Key → Request → Bool
put_hit k s = keyed k s || (is_scan s && covers_key k s)

conflict-put :
    (r s : Request)
    → r.command.op ≡ op_put
    → HasCount s
    → is_noop s ≡ false
    → conflict r.command s.command ≡ some (put_hit r.command.k s)
unfolding conflict
conflict-put r s e ok op = ground (arith, e, ok, op, same_key s.command.k r.command.k)

conflict_scan-put :
    (r s : Request)
    → r.command.op ≡ op_put
    → is_scan s ≡ true
    → is_some (le_uint64 s.command.v) ≡ true
    → conflict s.command r.command ≡ some (covers_key r.command.k s)
unfolding conflict
conflict_scan-put r s e scan ok = ground (arith, e, ok, scan)

abbrev scan_hit : Key → Key → Request → Bool
scan_hit lo hi s = s.command.op == op_put && (leb_ℤ lo s.command.k && leb_ℤ s.command.k hi)

conflict-scan :
    (r s : Request) (n : ℕ)
    → r.command.op ≡ op_scan
    → le_uint64 r.command.v ≡ some n
    → conflict r.command s.command ≡ some (scan_hit r.command.k (scan_end r.command.k n) s)
unfolding conflict
conflict-scan r s n e v = ground (arith, e, v)

-- An entry that is no scan, or has no count.
abbrev bad : Request → Bool
bad s = not (is_scan s) || not (is_some (le_uint64 s.command.v))

any_scan-hit :
    (r : Request) (m : Map RequestId Request)
    → r.command.op ≡ op_put
    → any_entry bad m ≡ false
    → any_scan r.command m ≡ some (any_entry (covers_key r.command.k) m)
unfolding any_scan
any_scan-hit r [] e ok = refl
any_scan-hit r ((id, s) ∷ m) e ok = ground (arith, ok, conflict_scan-put r s e, any_scan-hit r m e)

no_bad : (rs : List Request) → All HasCount rs → any (λ s. is_scan s && bad s) rs ≡ false
no_bad [] ok = refl
no_bad (s ∷ rs) (o, ok) = ground (arith, o, no_bad rs ok)

eq_of_iff : (a b : Bool) → (a ≡ true → b ≡ true) → (b ≡ true → a ≡ true) → a ≡ b
eq_of_iff a b f g = ground (arith, f, g)

module _ (lo hi : Key) where
  any_write-find :
      (m : Map Key ℤ)
      → any_write lo hi m ≡ true
      → (k : Key) × ((leb_ℤ lo k && leb_ℤ k hi) ≡ true) × (has k m ≡ true)
  unfolding any_write find
  any_write-find [] h = ground (arith, h)
  any_write-find ((k, n) ∷ m) h = elim (Bool-cases (leb_ℤ lo k && leb_ℤ k hi)) [
    | inl i ↦ (k, i, ground (arith, ==ℤ_iff k k))
    | inr out ↦
        let (j, i, f) = any_write-find m (ground (arith, out, h)) in (j, i, ground (arith, f))
  ]

  find-any_write :
      (k : Key) (m : Map Key ℤ)
      → (leb_ℤ lo k && leb_ℤ k hi) ≡ true
      → has k m ≡ true
      → any_write lo hi m ≡ true
  unfolding any_write find
  find-any_write k [] i h = h
  find-any_write k ((j, n) ∷ m) i h = ground (arith, i, h, ==ℤ_iff j k, find-any_write k m i)

  scan_hit-key :
      (rs : List Request)
      → any (scan_hit lo hi) rs ≡ true
      → (k : Key) × ((leb_ℤ lo k && leb_ℤ k hi) ≡ true) × (any (written k) rs ≡ true)
  scan_hit-key [] h = ground (arith, h)
  scan_hit-key (s ∷ rs) h = elim (Bool-cases (scan_hit lo hi s)) [
    | inl hit ↦
        (s.command.k, ground (arith, hit), ground (arith, hit, ==ℤ_iff s.command.k s.command.k))
    | inr miss ↦
        let (j, i, f) = scan_hit-key rs (ground (arith, miss, h)) in (j, i, ground (arith, f))
  ]

counted-has : (k : Key) (n : ℕ) (m : Map Key ℤ) → find k m ≡ counted n → has k m ≡ ltb 0 n
counted-has k zero m h = ap is_some h
counted-has k (suc n) m h = ground (arith, ap is_some h)

-- What a command meets in the index is what it meets in the requests.
module _ {rs : List Request} {x : ConflictIndex} (h : Holds rs x) where
  any_write-hit : (lo hi : Key) → any_write lo hi x.writes ≡ any (scan_hit lo hi) rs
  any_write-hit lo hi = eq_of_iff _ _ there back
    where
      is_written : (k : Key) → has k x.writes ≡ any (written k) rs
      is_written k =
          counted-has k (count (written k) rs) x.writes (h.writes k) ∙ count-any (written k) rs

      there : any_write lo hi x.writes ≡ true → any (scan_hit lo hi) rs ≡ true
      there e =
          let (k, i, f) = any_write-find lo hi x.writes e in
          any_mono (written k) (scan_hit lo hi) rs
            (λ s w. ground (arith, w, i, ==ℤ_iff s.command.k k)) (sym (is_written k) ∙ f)

      back : any (scan_hit lo hi) rs ≡ true → any_write lo hi x.writes ≡ true
      back e =
          let (k, i, f) = scan_hit-key lo hi rs e in
          find-any_write lo hi k x.writes i (is_written k ∙ f)

  module _ (r : Request) (ok : All HasCount rs) where
    exact_get : r.command.op ≡ op_get → conflicts r x ≡ conflict_any r.command (commands rs)
    unfolding conflicts
    exact_get e =
        ground (arith, e)
        ∙ ap some read
        ∙ sym (conflict_any-hit r.command (written r.command.k) (conflict-get r e) rs ok)
      where
        k : Key
        k = r.command.k

        read : ltb_ℤ (pos 0) (count_at k x.writes) ≡ any (λ s. not (is_noop s) && written k s) rs
        read =
            count_at-Holds k (count (written k) rs) x.writes (h.writes k)
            ∙ count-any (written k) rs
            ∙ any_ext (written k) (λ s. not (is_noop s) && written k s) rs (λ s. ground arith)

    exact_put : r.command.op ≡ op_put → conflicts r x ≡ conflict_any r.command (commands rs)
    unfolding conflicts
    exact_put e =
        ground (arith, e, keys, scans)
        ∙ ap some (sym (any-or (keyed k) (λ s. is_scan s && covers_key k s) rs))
        ∙ ap some (any_ext (put_hit k) (λ s. not (is_noop s) && put_hit k s) rs (λ s. ground arith))
        ∙ sym (conflict_any-hit r.command (put_hit k) (λ s. conflict-put r s e) rs ok)
      where
        k : Key
        k = r.command.k

        keys : ltb_ℤ (pos 0) (count_at k x.all) ≡ any (keyed k) rs
        keys = count_at-Holds k (count (keyed k) rs) x.all (h.all k) ∙ count-any (keyed k) rs

        scans : any_scan r.command x.scans ≡ some (any (λ s. is_scan s && covers_key k s) rs)
        scans =
            any_scan-hit r x.scans e (h.scans bad ∙ no_bad rs ok) ∙ ap some (h.scans (covers_key k))

    exact_scan :
        r.command.op ≡ op_scan → HasCount r → conflicts r x ≡ conflict_any r.command (commands rs)
    unfolding conflicts
    exact_scan e has_count = elim (Option-cases (le_uint64 r.command.v)) [
      | inl gone ↦ ground (arith, has_count, e, gone)
      | inr (n, there) ↦
          let lo = r.command.k in
          let hi = scan_end r.command.k n in
          ground (arith, e, there)
          ∙ ap some (any_write-hit lo hi)
          ∙ ap some (
              any_ext (scan_hit lo hi) (λ s. not (is_noop s) && scan_hit lo hi s) rs
                (λ s. ground arith))
          ∙ sym (
              conflict_any-hit r.command (scan_hit lo hi) (λ s o op. conflict-scan r s n e there) rs
                ok)
    ]

exact_noop : (r : Request) (x : ConflictIndex) → r.command.op ≡ op_none → conflicts r x ≡ some false
unfolding conflicts
exact_noop r x e = ground (arith, e)

-- An index that holds a list of requests answers for a GET, a PUT or a SCAN as the comparison of the
-- command by `Conflict` with each command of the list that is no no-op, and for a no-op that nothing
-- conflicts, where every SCAN has its count.
pub conflicts_exact :
    (rs : List Request) (x : ConflictIndex) (r : Request)
    → Indexes rs x
    → All HasCount rs
    → HasCount r
    → r.command.op ≤ op_scan
    → conflicts r x
      ≡ (if r.command.op == op_none then some false else conflict_any r.command (commands rs))
conflicts_exact rs x r i ok has_count known =
    ground (arith, known, exact_noop r x, exact_get h r ok, exact_put h r ok, scan)
  where
    h : Holds rs x
    h = Indexes-Holds i

    scan : r.command.op ≡ op_scan → conflicts r x ≡ conflict_any r.command (commands rs)
    scan e = exact_scan h r ok e has_count
