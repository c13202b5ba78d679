-- ===== src/Arc/Optimized/Losing.antt =====
-- The operations that drop handles keep the invariant.
use rust_atomics_and_locks.Base.{ℕ, suc, ◌+◌, ◌<◌, ◌≡◌, inl, inr, arith, sum-put}
use rust_atomics_and_locks.Arc.Word.{max_half}
use rust_atomics_and_locks.Arc.Optimized.{
  idle, last_arc, dropping, last, ArcData, arc_dropped, drop_arc, fenced, drop_content,
  implicit_dropped, drop_implicit_weak, weak_dropped, drop_one_weak, free_box,
}
use rust_atomics_and_locks.Arc.Optimized.Tally.{
  weaks_of, arcs-le, weaks-le, locks-le, two_arcs, locks-le-strong, still-Tally,
}
use rust_atomics_and_locks.Arc.Optimized.Releasing.{
  drop_arc-Counted, drop_implicit_weak-Counted, drop_one_weak-Counted,
}
use rust_atomics_and_locks.Arc.Optimized.Life.{Inv}

module _ {T : Type 0} {n k : ℕ} {s : ArcData T} (few : k + 2 < max_half) (inv : Inv n k s) (i : ℕ)
    (lt : i < n) where
  open inv use {
    count, freed_once, alive, last_dead, last_one, settled, dropped_once, undropped, clearing,
    clearing_one, cleared, finishing, borrower, upgrader, downgrader, running,
  }

  pub drop_arc-Inv : (s.threads i).pc ≡ idle → 0 < (s.threads i).arcs → Inv n (suc k) (drop_arc i s)
  unfolding drop_arc
  drop_arc-Inv at some =
      let arcs_fit = arcs-le count i lt in
      let locks_fit = locks-le count i lt in
      let weaks_change = sum-put weaks_of n i s.threads (arc_dropped s (s.threads i)) lt in
      let weaks_fit = weaks-le count i lt in
      record {
        count = drop_arc-Counted s count few i lt at some;
        freed_once = freed_once;
        alive = λ h. ground (arith, alive);
        last_dead = λ j l h. ground (arith, last_dead j, count.exact, count.locked);
        last_one = λ j m l l' h h'.
            ground (arith, last_one j m, last_dead j, last_dead m, count.exact, count.locked);
        settled = λ h. ground (arith, settled);
        dropped_once = dropped_once;
        undropped = λ h. ground (arith, undropped);
        clearing = λ j l h. ground (arith, clearing j, undropped);
        clearing_one = λ j m l l' h h'. ground (arith, clearing_one j m, clearing j, clearing m);
        cleared = λ h. inr (i, lt, ground arith);
        finishing = λ j l h. ground (arith, finishing j);
        borrower =
            λ j l h. ground (arith, borrower j, count.exact, count.locked, two_arcs count i lt j l);
        upgrader = λ j m l h. ground (arith, upgrader j m);
        downgrader = λ j m l h. ground (arith, downgrader j m);
        running = λ j l. ground (arith, running j);
      }

  pub drop_content-Inv : (s.threads i).pc ≡ last_arc → Inv n (suc k) (drop_content i s)
  unfolding drop_content
  drop_content-Inv at =
      let arcs_fit = arcs-le count i lt in
      let locks_fit = locks-le count i lt in
      let weaks_change = sum-put weaks_of n i s.threads (fenced dropping s i (s.threads i)) lt in
      let weaks_fit = weaks-le count i lt in
      record {
        count =
            still-Tally count i lt (fenced dropping s i (s.threads i)) (ground arith) (ground arith)
              (ground arith);
        freed_once = freed_once;
        alive = λ h. ground (arith, alive);
        last_dead = λ j l h. ground (arith, last_dead j, count.exact, count.locked);
        last_one = λ j m l l' h h'.
            ground (arith, last_one j m, last_dead j, last_dead m, count.exact, count.locked);
        settled = λ h. ground (arith, settled);
        dropped_once = ground (arith, clearing i lt);
        undropped = λ h. ground (arith, clearing i lt);
        clearing = λ j l h. ground (arith, clearing_one i j);
        clearing_one = λ j m l l' h h'. ground (arith, clearing_one j m, clearing j, clearing m);
        cleared = λ h. inl (ground (arith, clearing i lt));
        finishing = λ j l h. ground (arith, finishing j, clearing i lt);
        borrower =
            λ j l h. ground (arith, borrower j, count.exact, count.locked, two_arcs count i lt j l);
        upgrader = λ j m l h. ground (arith, upgrader j m);
        downgrader = λ j m l h. ground (arith, downgrader j m);
        running = λ j l. ground (arith, running j);
      }

  pub drop_implicit_weak-Inv : (s.threads i).pc ≡ dropping → Inv n (suc k) (drop_implicit_weak i s)
  unfolding drop_implicit_weak
  drop_implicit_weak-Inv at =
      let arcs_fit = arcs-le count i lt in
      let locks_fit = locks-le count i lt in
      let weaks_change = sum-put weaks_of n i s.threads (implicit_dropped s (s.threads i)) lt in
      let weaks_fit = weaks-le count i lt in
      record {
        count = drop_implicit_weak-Counted s count few i lt at;
        freed_once = freed_once;
        alive = λ h. ground (arith, alive);
        last_dead = λ j l h. ground (arith, last_dead j, count.exact, count.locked);
        last_one = λ j m l l' h h'.
            ground (arith, last_one j m, last_dead j, last_dead m, count.exact, count.locked);
        settled =
            λ h. inr (i, lt, ground (arith, count.exact, count.locked, locks-le-strong count i lt));
        dropped_once = dropped_once;
        undropped = λ h. ground (arith, undropped);
        clearing = λ j l h. ground (arith, clearing j, undropped);
        clearing_one = λ j m l l' h h'. ground (arith, clearing_one j m, clearing j, clearing m);
        cleared = λ h. ground (arith, cleared);
        finishing = λ j l h. ground (arith, finishing j);
        borrower =
            λ j l h. ground (arith, borrower j, count.exact, count.locked, two_arcs count i lt j l);
        upgrader = λ j m l h. ground (arith, upgrader j m);
        downgrader = λ j m l h. ground (arith, downgrader j m);
        running = λ j l. ground (arith, running j);
      }

  pub drop_one_weak-Inv :
      (s.threads i).pc ≡ idle → 0 < (s.threads i).weaks → Inv n (suc k) (drop_one_weak i s)
  unfolding drop_one_weak
  drop_one_weak-Inv at some =
      let arcs_fit = arcs-le count i lt in
      let locks_fit = locks-le count i lt in
      let weaks_change = sum-put weaks_of n i s.threads (weak_dropped s (s.threads i)) lt in
      let weaks_fit = weaks-le count i lt in
      record {
        count = drop_one_weak-Counted s count few i lt at some;
        freed_once = freed_once;
        alive = λ h. ground (arith, alive);
        last_dead = λ j l h. ground (arith, last_dead j, count.exact, count.locked);
        last_one = λ j m l l' h h'.
            ground (arith, last_one j m, last_dead j, last_dead m, count.exact, count.locked);
        settled =
            λ h. inr (i, lt, ground (arith, count.exact, count.locked, locks-le-strong count i lt));
        dropped_once = dropped_once;
        undropped = λ h. ground (arith, undropped);
        clearing = λ j l h. ground (arith, clearing j, undropped);
        clearing_one = λ j m l l' h h'. ground (arith, clearing_one j m, clearing j, clearing m);
        cleared = λ h. ground (arith, cleared);
        finishing = λ j l h. ground (arith, finishing j);
        borrower =
            λ j l h. ground (arith, borrower j, count.exact, count.locked, two_arcs count i lt j l);
        upgrader = λ j m l h. ground (arith, upgrader j m);
        downgrader = λ j m l h. ground (arith, downgrader j m);
        running = λ j l. ground (arith, running j);
      }

  pub free_box-Inv : (s.threads i).pc ≡ last → Inv n (suc k) (free_box i s)
  unfolding free_box
  free_box-Inv at =
      let arcs_fit = arcs-le count i lt in
      let locks_fit = locks-le count i lt in
      let weaks_change = sum-put weaks_of n i s.threads (fenced idle s i (s.threads i)) lt in
      let weaks_fit = weaks-le count i lt in
      record {
        count =
            still-Tally count i lt (fenced idle s i (s.threads i)) (ground arith) (ground arith)
              (ground arith);
        freed_once = ground (arith, last_dead i lt);
        alive = λ h. ground (arith, last_dead i lt);
        last_dead = λ j l h. ground (arith, last_one i j);
        last_one = λ j m l l' h h'.
            ground (arith, last_one j m, last_dead j, last_dead m, count.exact, count.locked);
        settled = λ h. inl (ground (arith, last_dead i lt));
        dropped_once = dropped_once;
        undropped = λ h. ground (arith, undropped);
        clearing = λ j l h. ground (arith, clearing j, undropped);
        clearing_one = λ j m l l' h h'. ground (arith, clearing_one j m, clearing j, clearing m);
        cleared = λ h. ground (arith, cleared);
        finishing = λ j l h. ground (arith, finishing j);
        borrower =
            λ j l h. ground (arith, borrower j, count.exact, count.locked, two_arcs count i lt j l);
        upgrader = λ j m l h. ground (arith, upgrader j m);
        downgrader = λ j m l h. ground (arith, downgrader j m);
        running = λ j l. ground (arith, running j);
      }
