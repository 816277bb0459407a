-- ===== src/FastPaxos/Keeps/Recovery.antt =====
-- Prepare, snapshots, the classic ballot and repair: fastpaxos/recovery.go.
use consensus_arena.Prelude.{
  ℕ, zero, suc, ◌≡◌, refl, Bool, true, false, List, [], ◌∷◌, Option, none, some, if◌then◌else◌,
  arith, if_both, ltb, leb, ◌==◌, nat_eq, ◌%◌, not, ◌||◌,
}
use consensus_arena.Prelude.Int.{int_eq, ℤ, pos, pos_part, leb_ℤ, ◌==ℤ◌}
use consensus_arena.Prelude.Maps.{Map, put}
use consensus_arena.ReplicaSet.{Set}
use consensus_arena.Paxos.Defs.{RequestId, id_eq, next}
use consensus_arena.FastPaxos.Defs.{Record, Entry}
use consensus_arena.FastPaxos.Core.{Core, Snapshot, Kind, Message, slot_at}
use consensus_arena.FastPaxos.Recovery.{
  adopt, begin, send_all, prepare, freeze, remember_all, remember_parts, remember_voters, plan,
  plan_slots, enqueue_all, announce, when_full, ask, resent, rest_of, add_entry, resend_loop,
  resend, take_over, promise_page, with_part, snapshot_of, is_nil,
}
use consensus_arena.FastPaxos.Keeps.{
  Keeps, Keeps-refl, Keeps-trans, KeepsOption, from-Keeps, bind-Keeps, done, same-Keeps,
  update-Keeps,
}
use consensus_arena.FastPaxos.Keeps.Normal.{
  open_slot-Keeps, send-Keeps, broadcast-Keeps, remember-Keeps, enqueue-Keeps,
}
use consensus_arena.FastPaxos.Keeps.Decisions.{find-KeepsOption}

module _ {S : Type 0} where
  pub adopt-Keeps : (epoch : ℕ) (c : Core S) → Keeps c (adopt epoch c)
  unfolding adopt
  adopt-Keeps epoch c = go (leb epoch c.promise) refl
    where
      go :
          (b : Bool)
          → leb epoch c.promise ≡ b
          → Keeps c (
              if b then c else record c {
                promise = epoch;
                active = false;
                preparing = false;
                frozen = [];
                queue = [];
                assigned = [];
              })
      go true e = Keeps-refl c
      go false e = same-Keeps c _ refl refl (ground (arith, e)) refl refl refl

  pub begin-Keeps : (c : Core S) → Keeps c (begin c)
  unfolding begin
  begin-Keeps c =
      Keeps-trans (adopt-Keeps _ c)
        (Keeps-trans (same-Keeps _ _ refl refl (omega arith) refl refl refl) (broadcast-Keeps _ _))

  send_all-Keeps : (to : ℤ) (ms : List Message) (c : Core S) → Keeps c (send_all to ms c)
  unfolding send_all
  send_all-Keeps to [] c = Keeps-refl c
  send_all-Keeps to (m ∷ ms) c = Keeps-trans (send-Keeps to m c) (send_all-Keeps to ms _)

  frozen-Keeps :
      (m : Message) (c : Core S)
      → Keeps c (
          let pages = freeze m.start c in
          send_all m.from pages (record c { frozen = pages; frozen_start = m.start }))
  frozen-Keeps m c = Keeps-trans kept (send_all-Keeps m.from _ _)
    where
      kept : Keeps c (record c { frozen = freeze m.start c; frozen_start = m.start })
      kept = same-Keeps c _ refl refl (omega arith) refl refl refl

  pub prepare-Keeps : (m : Message) (c : Core S) → Keeps c (prepare m c)
  unfolding prepare
  prepare-Keeps m c =
      if_both (Keeps c) (m.epoch == 0 || not (pos (m.epoch % c.n) ==ℤ m.from)) (Keeps-refl c) (
        if_both (Keeps c) (ltb m.epoch c.promise) (send-Keeps m.from _ c) (
          Keeps-trans (adopt-Keeps m.epoch c) (
            if_both (Keeps _) (not (is_nil (adopt m.epoch c).frozen))
              (if_both (Keeps _) ((adopt m.epoch c).frozen_start ==ℤ m.start)
                (send_all-Keeps m.from _ _) (Keeps-refl _))
              (frozen-Keeps m (adopt m.epoch c)))))

  pub remember_all-Keeps : (es : List Entry) (c : Core S) → KeepsOption c (remember_all es c)
  unfolding remember_all
  remember_all-Keeps [] c = done
  remember_all-Keeps (e ∷ es) c =
      bind-Keeps (if_both (KeepsOption c) _ (remember-Keeps e.value c) done) (remember_all-Keeps es)

  remember_parts-Keeps :
      (parts : Map ℤ (List Entry)) (c : Core S) → KeepsOption c (remember_parts parts c)
  unfolding remember_parts
  remember_parts-Keeps [] c = done
  remember_parts-Keeps ((page, es) ∷ parts) c =
      bind-Keeps (remember_all-Keeps es c) (remember_parts-Keeps parts)

  remember_voters-Keeps :
      (voters : Set) (snapshots : Map ℕ Snapshot) (c : Core S)
      → KeepsOption c (remember_voters voters snapshots c)
  unfolding remember_voters
  remember_voters-Keeps voters [] c = done
  remember_voters-Keeps voters ((id, s) ∷ snapshots) c =
      bind-Keeps (if_both (KeepsOption c) _ (remember_parts-Keeps s.parts c) done)
        (remember_voters-Keeps voters snapshots)

  plan-Keeps : (s : ℤ) (v : Record) (c : Core S) → Keeps c (plan s v c)
  unfolding plan
  plan-Keeps s v c =
      Keeps-trans (update-Keeps s _ c refl) (same-Keeps _ _ refl refl (omega arith) refl refl refl)

  plan_slots-Keeps :
      (k : ℕ) (s : ℤ) (by_slot : Map ℤ (Map ℕ Entry)) (voters : Set) (c : Core S)
      → KeepsOption c (plan_slots k s by_slot voters c)
  unfolding plan_slots
  plan_slots-Keeps zero s by_slot voters c = done
  plan_slots-Keeps (suc k) s by_slot voters c = find-KeepsOption _ (λ choice.
      bind-Keeps (open_slot-Keeps s c)
        (λ d. from-Keeps (plan-Keeps s choice.0 d) (plan_slots-Keeps k (next s) by_slot voters _)))

  enqueue_all-Keeps : (ids : List RequestId) (c : Core S) → Keeps c (enqueue_all ids c)
  unfolding enqueue_all
  enqueue_all-Keeps [] c = Keeps-refl c
  enqueue_all-Keeps (id ∷ ids) c = Keeps-trans (enqueue-Keeps id c) (enqueue_all-Keeps ids _)

  pub announce-Keeps :
      (kind : Kind) (epoch : ℕ) (es : List Entry) (c : Core S) → Keeps c (announce kind epoch es c)
  unfolding announce
  announce-Keeps kind epoch [] c = Keeps-refl c
  announce-Keeps kind epoch (e ∷ es) c = broadcast-Keeps _ c

  when_full-Keeps :
      (page : List Entry) (kind : Kind) (epoch : ℕ) (c : Core S)
      → Keeps c (when_full page kind epoch c)
  when_full-Keeps page kind epoch c =
      if_both (Keeps c) _ (announce-Keeps kind epoch page c) (Keeps-refl c)

  ask-Keeps : (o : Option Entry) (c : Core S) → Keeps c (ask o c)
  ask-Keeps none c = Keeps-refl c
  ask-Keeps (some e) c = broadcast-Keeps _ c

  resend_loop-Keeps :
      (budget : ℕ) (ceiling : ℤ) (accepted committed : List Entry) (c : Core S)
      → Keeps c (resend_loop budget ceiling accepted committed c)
  unfolding resend_loop
  resend_loop-Keeps zero ceiling accepted committed c =
      Keeps-trans (announce-Keeps Kind.accept c.promise accepted c)
        (announce-Keeps Kind.commit 0 committed _)
  resend_loop-Keeps (suc budget) ceiling accepted committed c =
      go (leb_ℤ c.retry_cursor ceiling) (resend_loop-Keeps budget ceiling)
    where
      cursor : ℤ
      cursor = c.retry_cursor

      as' : List Entry
      as' = add_entry accepted (resent (slot_at cursor c) c).0

      ds' : List Entry
      ds' = add_entry committed (resent (slot_at cursor c) c).1

      missing : Option Entry
      missing = (resent (slot_at cursor c) c).2

      moved : Core S
      moved = ask missing (record c { retry_cursor = next cursor })

      first : Core S
      first = when_full as' Kind.accept c.promise moved

      second : Core S
      second = when_full ds' Kind.commit 0 first

      moved-Keeps : Keeps c moved
      moved-Keeps =
          Keeps-trans
            (same-Keeps c (record c { retry_cursor = next cursor }) refl refl (omega arith) refl
              refl refl)
            (ask-Keeps missing _)

      second-Keeps : Keeps c second
      second-Keeps = Keeps-trans {b = moved} moved-Keeps (
          Keeps-trans (when_full-Keeps as' Kind.accept c.promise moved)
            (when_full-Keeps ds' Kind.commit 0 first))

      go :
          (b : Bool)
          → ((xs ds : List Entry) (d : Core S) → Keeps d (resend_loop budget ceiling xs ds d))
          → Keeps c (elim b [
            | false ↦ announce Kind.commit 0 committed (announce Kind.accept c.promise accepted c)
            | true ↦ resend_loop budget ceiling (rest_of as') (rest_of ds') second
          ])
      go false ih =
          Keeps-trans (announce-Keeps Kind.accept c.promise accepted c)
            (announce-Keeps Kind.commit 0 committed _)
      go true ih = Keeps-trans second-Keeps (ih (rest_of as') (rest_of ds') second)

  pub resend-Keeps : (c : Core S) → Keeps c (resend c)
  unfolding resend
  resend-Keeps c = if_both (Keeps c) _ (Keeps-refl c) (
      Keeps-trans (same-Keeps c _ refl refl (omega arith) refl refl refl)
        (resend_loop-Keeps _ _ [] [] _))

  take_over-Keeps : (c : Core S) → KeepsOption c (take_over c)
  unfolding take_over
  take_over-Keeps c = bind-Keeps (remember_voters-Keeps _ c.snapshots c) (λ d.
      from-Keeps (same-Keeps d _ refl refl (omega arith) refl refl refl) (
        bind-Keeps (plan_slots-Keeps _ _ _ _ _)
          (λ d3. KeepsOption.keeps (Keeps-trans (enqueue_all-Keeps _ d3) (resend-Keeps _)))))

  pub promise_page-Keeps : (m : Message) (c : Core S) → KeepsOption c (promise_page m c)
  unfolding promise_page
  promise_page-Keeps m c = if_both (KeepsOption c) _ done (
      if_both (KeepsOption c) _ (KeepsOption.keeps (kept (snapshot_of m c))) (
        if_both (KeepsOption c) _ (KeepsOption.keeps (kept (with_part m (snapshot_of m c))))
          (from-Keeps (kept (with_part m (snapshot_of m c))) (take_over-Keeps _))))
    where
      kept : (s : Snapshot) → Keeps c (record c { snapshots = put (pos_part m.from) s c.snapshots })
      kept s = same-Keeps c _ refl refl (omega arith) refl refl refl
