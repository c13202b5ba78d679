-- ===== src/Arc/Optimized/Gaining.antt =====
-- The operations that make handles, but for `downgrade`, keep the invariant.
use rust_atomics_and_locks.Base.{ℕ, suc, ◌+◌, ◌<◌, ◌≡◌, Bool, arith, sum-put}
use rust_atomics_and_locks.Arc.Word.{max_half}
use rust_atomics_and_locks.Arc.Optimized.{
  idle, upgrading, ArcData, cloned, clone_arc, weak_cloned, clone_one_weak, count_loaded,
  begin_upgrade, upgrade_tried, try_upgrade,
}
use rust_atomics_and_locks.Arc.Optimized.Tally.{
  weaks_of, arcs-le, weaks-le, locks-le, two_arcs, locks-le-strong, still-Tally,
}
use rust_atomics_and_locks.Arc.Optimized.Counting.{
  clone_arc-Counted, clone_one_weak-Counted, try_upgrade-Counted,
}
use rust_atomics_and_locks.Arc.Optimized.Life.{Inv}

module _ {T : Type 0} {n k : ℕ} {s : ArcData T} (few : k + 2 < max_half) (inv : Inv n k s) (i : ℕ)
    (lt : i < n) where
  open inv use {
    count, freed_once, alive, last_dead, last_one, settled, dropped_once, undropped, clearing,
    clearing_one, cleared, finishing, borrower, upgrader, downgrader, running,
  }

  pub clone_arc-Inv :
      (s.threads i).pc ≡ idle → 0 < (s.threads i).arcs → Inv n (suc k) (clone_arc i s)
  unfolding clone_arc
  clone_arc-Inv at some =
      let arcs_fit = arcs-le count i lt in
      let locks_fit = locks-le count i lt in
      let weaks_change = sum-put weaks_of n i s.threads (cloned s (s.threads i)) lt in
      let weaks_fit = weaks-le count i lt in
      record {
        count = clone_arc-Counted s count few i lt at some;
        freed_once = freed_once;
        alive = λ h. ground (arith, alive);
        last_dead = λ j l h. ground (arith, last_dead j, count.exact, count.locked);
        last_one = λ j m l l' h h'.
            ground (arith, last_one j m, last_dead j, last_dead m, count.exact, count.locked);
        settled = λ h. ground (arith, settled);
        dropped_once = dropped_once;
        undropped = λ h. ground (arith, undropped);
        clearing = λ j l h. ground (arith, clearing j, undropped);
        clearing_one = λ j m l l' h h'. ground (arith, clearing_one j m, clearing j, clearing m);
        cleared = λ h. ground (arith, cleared);
        finishing = λ j l h. ground (arith, finishing j);
        borrower =
            λ j l h. ground (arith, borrower j, count.exact, count.locked, two_arcs count i lt j l);
        upgrader = λ j m l h. ground (arith, upgrader j m);
        downgrader = λ j m l h. ground (arith, downgrader j m);
        running = λ j l. ground (arith, running j);
      }

  pub clone_one_weak-Inv :
      (s.threads i).pc ≡ idle → 0 < (s.threads i).weaks → Inv n (suc k) (clone_one_weak i s)
  unfolding clone_one_weak
  clone_one_weak-Inv at some =
      let arcs_fit = arcs-le count i lt in
      let locks_fit = locks-le count i lt in
      let weaks_change = sum-put weaks_of n i s.threads (weak_cloned s (s.threads i)) lt in
      let weaks_fit = weaks-le count i lt in
      record {
        count = clone_one_weak-Counted s count few i lt at some;
        freed_once = freed_once;
        alive = λ h. ground (arith, alive);
        last_dead = λ j l h. ground (arith, last_dead j, count.exact, count.locked);
        last_one = λ j m l l' h h'.
            ground (arith, last_one j m, last_dead j, last_dead m, count.exact, count.locked);
        settled = λ h. ground (arith, settled);
        dropped_once = dropped_once;
        undropped = λ h. ground (arith, undropped);
        clearing = λ j l h. ground (arith, clearing j, undropped);
        clearing_one = λ j m l l' h h'. ground (arith, clearing_one j m, clearing j, clearing m);
        cleared = λ h. ground (arith, cleared);
        finishing = λ j l h. ground (arith, finishing j);
        borrower =
            λ j l h. ground (arith, borrower j, count.exact, count.locked, two_arcs count i lt j l);
        upgrader = λ j m l h. ground (arith, upgrader j m);
        downgrader = λ j m l h. ground (arith, downgrader j m);
        running =
            λ j l. ground (arith, running j, count.exact, count.locked, locks-le-strong count i lt);
      }

  pub begin_upgrade-Inv :
      (s.threads i).pc ≡ idle → 0 < (s.threads i).weaks → Inv n (suc k) (begin_upgrade i s)
  unfolding begin_upgrade
  begin_upgrade-Inv at some =
      let arcs_fit = arcs-le count i lt in
      let locks_fit = locks-le count i lt in
      let weaks_change = sum-put weaks_of n i s.threads (count_loaded s (s.threads i)) lt in
      let weaks_fit = weaks-le count i lt in
      record {
        count =
            still-Tally count i lt (count_loaded s (s.threads i)) (ground arith) (ground arith)
              (ground arith);
        freed_once = freed_once;
        alive = λ h. ground (arith, alive);
        last_dead = λ j l h. ground (arith, last_dead j, count.exact, count.locked);
        last_one = λ j m l l' h h'.
            ground (arith, last_one j m, last_dead j, last_dead m, count.exact, count.locked);
        settled = λ h. ground (arith, settled);
        dropped_once = dropped_once;
        undropped = λ h. ground (arith, undropped);
        clearing = λ j l h. ground (arith, clearing j, undropped);
        clearing_one = λ j m l l' h h'. ground (arith, clearing_one j m, clearing j, clearing m);
        cleared = λ h. ground (arith, cleared);
        finishing = λ j l h. ground (arith, finishing j);
        borrower =
            λ j l h. ground (arith, borrower j, count.exact, count.locked, two_arcs count i lt j l);
        upgrader = λ j m l h. ground (arith, upgrader j m);
        downgrader = λ j m l h. ground (arith, downgrader j m);
        running = λ j l. ground (arith, running j);
      }

  pub try_upgrade-Inv :
      (b : Bool) (m : ℕ) → (s.threads i).pc ≡ upgrading m → Inv n (suc k) (try_upgrade i b m s)
  unfolding try_upgrade
  try_upgrade-Inv b m at =
      let arcs_fit = arcs-le count i lt in
      let locks_fit = locks-le count i lt in
      let weaks_fit = weaks-le count i lt in
      record {
        count =
            try_upgrade-Counted s count few i lt b m at (ground (arith, upgrader i m))
              (ground (arith, upgrader i m));
        freed_once = freed_once;
        alive = λ h. ground (
          arith,
          alive,
          sum-put weaks_of n i s.threads (upgrade_tried b m s (s.threads i)) lt,
          upgrader i m lt at,
        );
        last_dead = λ j l h. ground (
          arith,
          last_dead j,
          count.exact,
          count.locked,
          sum-put weaks_of n i s.threads (upgrade_tried b m s (s.threads i)) lt,
          upgrader i m lt at,
        );
        last_one = λ j q l l' h h'. ground (
          arith,
          last_one j q,
          last_dead j,
          last_dead q,
          count.exact,
          count.locked,
          sum-put weaks_of n i s.threads (upgrade_tried b m s (s.threads i)) lt,
          upgrader i m lt at,
        );
        settled = λ h. ground (
          arith,
          settled,
          sum-put weaks_of n i s.threads (upgrade_tried b m s (s.threads i)) lt,
          upgrader i m lt at,
        );
        dropped_once = dropped_once;
        undropped = λ h. ground (
          arith,
          undropped,
          sum-put weaks_of n i s.threads (upgrade_tried b m s (s.threads i)) lt,
          upgrader i m lt at,
        );
        clearing = λ j l h. ground (
          arith,
          clearing j,
          undropped,
          sum-put weaks_of n i s.threads (upgrade_tried b m s (s.threads i)) lt,
          upgrader i m lt at,
        );
        clearing_one = λ j q l l' h h'. ground (
          arith,
          clearing_one j q,
          clearing j,
          clearing q,
          sum-put weaks_of n i s.threads (upgrade_tried b m s (s.threads i)) lt,
          upgrader i m lt at,
        );
        cleared = λ h. ground (
          arith,
          cleared,
          sum-put weaks_of n i s.threads (upgrade_tried b m s (s.threads i)) lt,
          upgrader i m lt at,
        );
        finishing = λ j l h. ground (
          arith,
          finishing j,
          sum-put weaks_of n i s.threads (upgrade_tried b m s (s.threads i)) lt,
          upgrader i m lt at,
        );
        borrower = λ j l h. ground (
          arith,
          borrower j,
          count.exact,
          count.locked,
          two_arcs count i lt j l,
          sum-put weaks_of n i s.threads (upgrade_tried b m s (s.threads i)) lt,
          upgrader i m lt at,
        );
        upgrader = λ j q l h. ground (
          arith,
          upgrader j q,
          sum-put weaks_of n i s.threads (upgrade_tried b m s (s.threads i)) lt,
          upgrader i m lt at,
        );
        downgrader = λ j q l h. ground (arith, downgrader j q);
        running = λ j l. ground (arith, running j);
      }
