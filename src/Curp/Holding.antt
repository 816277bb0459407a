-- ===== src/Curp/Holding.antt =====
-- `add` and `remove` of curp/conflicts.go keep what an index holds.
use mathlib.Core.List.{Memᴰ}
use consensus_arena.Prelude.{
  suc, ◌≡◌, ◌<◌, refl, sym, ◌∙◌, Bool, true, false, not, ◌&&◌, List, ◌∷◌, if◌then◌else◌, length,
  arith, ◌==◌,
}
use consensus_arena.Prelude.Int.{int_eq, int_max}
use consensus_arena.Prelude.Maps.{find, put, delete}
use consensus_arena.State.{Key, op_none, op_put, op_scan}
use consensus_arena.Paxos.Defs.{id_beq, id_eq, Request}
use consensus_arena.Curp.Conflicts.{ConflictIndex, increase, decrease, add, remove}
use consensus_arena.Curp.Counts.{any, count, any_ext, any-and_false, any-filterb, counted}
use consensus_arena.Curp.Indexed.{
  Indexes, Holds, is_indexed, without, is_scan, keyed, written, any_entry, any_entry-put, Keyed-put,
  any_entry-delete, Keyed-delete, Distinct-without, counts_same, counts_added, counts_left,
  counts_removed, length-without, any_left,
}

module _ {rs : List Request} {x : ConflictIndex} (r : Request) (h : Holds rs x) where
  module _ (fresh : is_indexed r.id rs ≡ false) (room : suc (length rs) < int_max) where
    fresh_scan : any_entry (λ s. id_beq s.id r.id) x.scans ≡ false
    fresh_scan =
        h.scans (λ s. id_beq s.id r.id) ∙ any-and_false (λ s. id_beq s.id r.id) is_scan rs fresh

    writes_added :
        (k : Key)
        → find k (if r.command.op == op_put then increase r.command.k x.writes else x.writes)
          ≡ counted (count (written k) (r ∷ rs))
    writes_added k = either (r.command.op == op_put) refl
      where
        either :
            (b : Bool)
            → (r.command.op == op_put) ≡ b
            → find k (if b then increase r.command.k x.writes else x.writes)
              ≡ counted (count (written k) (r ∷ rs))
        either true e = counts_added written rs x.writes r h.writes (λ j. ground (arith, e)) room k
        either false e = counts_same written rs x.writes r h.writes (λ j. ground (arith, e)) k

    add-Holds : Holds (r ∷ rs) (add r x)
    unfolding add
    add-Holds = either (r.command.op == op_none) (r.command.op == op_scan) refl refl
      where
        either :
            (b b' : Bool)
            → (r.command.op == op_none) ≡ b
            → (r.command.op == op_scan) ≡ b'
            → Holds (r ∷ rs) (
                if b then x else if b' then record x { scans = put r.id r x.scans } else record x {
                  all = increase r.command.k x.all;
                  writes =
                      if r.command.op == op_put then increase r.command.k x.writes else x.writes;
                })
        either true b' e e' = record {
          all = counts_same keyed rs x.all r h.all (λ j. ground (arith, e));
          writes = counts_same written rs x.writes r h.writes (λ j. ground (arith, e));
          scans = λ p. ground (arith, e, h.scans p);
          keys = h.keys;
          distinct = (fresh, h.distinct);
          bound = room;
        }
        either false true e e' = record {
          all = counts_same keyed rs x.all r h.all (λ j. ground (arith, e'));
          writes = counts_same written rs x.writes r h.writes (λ j. ground (arith, e'));
          scans = λ p. ground (arith, e', h.scans p, any_entry-put p r x.scans h.keys fresh_scan);
          keys = Keyed-put r x.scans h.keys;
          distinct = (fresh, h.distinct);
          bound = room;
        }
        either false false e e' = record {
          all = counts_added keyed rs x.all r h.all (λ j. ground (arith, e, e')) room;
          writes = writes_added;
          scans = λ p. ground (arith, e', h.scans p);
          keys = h.keys;
          distinct = (fresh, h.distinct);
          bound = room;
        }

  module _ (member : Memᴰ r rs) where
    room : length (without r.id rs) < int_max
    room = omega (arith, h.bound, length-without r.id rs)

    writes_removed :
        (k : Key)
        → find k (if r.command.op == op_put then decrease r.command.k x.writes else x.writes)
          ≡ counted (count (written k) (without r.id rs))
    writes_removed k = either (r.command.op == op_put) refl
      where
        either :
            (b : Bool)
            → (r.command.op == op_put) ≡ b
            → find k (if b then decrease r.command.k x.writes else x.writes)
              ≡ counted (count (written k) (without r.id rs))
        either true e =
            counts_removed written rs x.writes r h.writes h.distinct member (λ j. ground (arith, e))
              h.bound k
        either false e =
            counts_left written rs x.writes r h.writes h.distinct member (λ j. ground (arith, e)) k

    scans_left :
        (r.command.op == op_scan) ≡ false
        → (p : Request → Bool) → any_entry p x.scans ≡ any (λ s. is_scan s && p s) (without r.id rs)
    scans_left e p =
        h.scans p ∙ any_left (λ s. is_scan s && p s) r rs h.distinct member (ground (arith, e))

    scans_removed :
        (p : Request → Bool)
        → any_entry p (delete r.id x.scans) ≡ any (λ s. is_scan s && p s) (without r.id rs)
    scans_removed p =
        any_entry-delete p r.id x.scans h.keys
        ∙ h.scans (λ s. not (id_beq s.id r.id) && p s)
        ∙ any_ext (λ s. is_scan s && (not (id_beq s.id r.id) && p s))
            (λ s. not (id_beq s.id r.id) && (is_scan s && p s)) rs (λ s. ground arith)
        ∙ sym (any-filterb (λ s. is_scan s && p s) (λ s. not (id_beq s.id r.id)) rs)

    remove-Holds : Holds (without r.id rs) (remove r x)
    unfolding remove
    remove-Holds = either (r.command.op == op_none) (r.command.op == op_scan) refl refl
      where
        either :
            (b b' : Bool)
            → (r.command.op == op_none) ≡ b
            → (r.command.op == op_scan) ≡ b'
            → Holds (without r.id rs) (
                if b then x else if b' then record x { scans = delete r.id x.scans } else record x {
                  all = decrease r.command.k x.all;
                  writes =
                      if r.command.op == op_put then decrease r.command.k x.writes else x.writes;
                })
        either true b' e e' = record {
          all = counts_left keyed rs x.all r h.all h.distinct member (λ j. ground (arith, e));
          writes =
              counts_left written rs x.writes r h.writes h.distinct member (λ j. ground (arith, e));
          scans = scans_left (ground (arith, e));
          keys = h.keys;
          distinct = Distinct-without r.id rs h.distinct;
          bound = room;
        }
        either false true e e' = record {
          all = counts_left keyed rs x.all r h.all h.distinct member (λ j. ground (arith, e'));
          writes =
              counts_left written rs x.writes r h.writes h.distinct member
                (λ j. ground (arith, e'));
          scans = scans_removed;
          keys = Keyed-delete r.id x.scans h.keys;
          distinct = Distinct-without r.id rs h.distinct;
          bound = room;
        }
        either false false e e' = record {
          all =
              counts_removed keyed rs x.all r h.all h.distinct member (λ j. ground (arith, e, e'))
                h.bound;
          writes = writes_removed;
          scans = scans_left e';
          keys = h.keys;
          distinct = Distinct-without r.id rs h.distinct;
          bound = room;
        }

pub Indexes-Holds : {rs : List Request} {x : ConflictIndex} → Indexes rs x → Holds rs x
unfolding find
Indexes-Holds Indexes.empty = record {
  all = λ k. refl;
  writes = λ k. refl;
  scans = λ p. refl;
  keys = tt;
  distinct = tt;
  bound = omega arith;
}
Indexes-Holds (Indexes.added r i fresh bound) = add-Holds r (Indexes-Holds i) fresh bound
Indexes-Holds (Indexes.removed r i m) = remove-Holds r (Indexes-Holds i) m
