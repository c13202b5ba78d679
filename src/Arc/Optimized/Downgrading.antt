-- ===== src/Arc/Optimized/Downgrading.antt =====
-- `downgrade` keeps the invariant.
use rust_atomics_and_locks.Base.{ℕ, suc, ◌+◌, ◌<◌, ◌≡◌, Bool, arith, sum-put}
use rust_atomics_and_locks.Arc.Word.{modulus, max_half}
use rust_atomics_and_locks.Arc.Optimized.{
  idle, downgrading, ArcData, alloc_loaded, load_alloc, downgrade_tried, try_downgrade,
}
use rust_atomics_and_locks.Arc.Optimized.Tally.{
  weaks_of, arcs-le, weaks-le, locks-le, two_arcs, still-Tally,
}
use rust_atomics_and_locks.Arc.Optimized.Counting.{try_downgrade-Counted}
use rust_atomics_and_locks.Arc.Optimized.Life.{Inv}

module _ {T : Type 0} {n k : ℕ} {s : ArcData T} (few : k + 2 < max_half) (inv : Inv n k s) (i : ℕ)
    (lt : i < n) where
  open inv use {
    count, freed_once, alive, last_dead, last_one, settled, dropped_once, undropped, clearing,
    clearing_one, cleared, finishing, borrower, upgrader, downgrader, running,
  }

  pub load_alloc-Inv :
      (s.threads i).pc ≡ idle → 0 < (s.threads i).arcs → Inv n (suc k) (load_alloc i s)
  unfolding load_alloc
  load_alloc-Inv at some =
      let arcs_fit = arcs-le count i lt in
      let locks_fit = locks-le count i lt in
      let weaks_change = sum-put weaks_of n i s.threads (alloc_loaded s (s.threads i)) lt in
      let weaks_fit = weaks-le count i lt in
      record {
        count =
            still-Tally count i lt (alloc_loaded s (s.threads i)) (ground arith) (ground arith)
              (ground arith);
        freed_once = freed_once;
        alive = λ h. ground (arith, alive);
        last_dead = λ j l h. ground (arith, last_dead j, count.exact, count.locked);
        last_one = λ j m l l' h h'.
            ground (arith, last_one j m, last_dead j, last_dead m, count.exact, count.locked);
        settled = λ h. ground (arith, settled);
        dropped_once = dropped_once;
        undropped = λ h. ground (arith, undropped);
        clearing = λ j l h. ground (arith, clearing j, undropped);
        clearing_one = λ j m l l' h h'. ground (arith, clearing_one j m, clearing j, clearing m);
        cleared = λ h. ground (arith, cleared);
        finishing = λ j l h. ground (arith, finishing j);
        borrower =
            λ j l h. ground (arith, borrower j, count.exact, count.locked, two_arcs count i lt j l);
        upgrader = λ j m l h. ground (arith, upgrader j m);
        downgrader = λ j m l h. ground (arith, downgrader j m, count.exact, count.locked);
        running = λ j l. ground (arith, running j);
      }

  pub reload_alloc-Inv : (m : ℕ) → (s.threads i).pc ≡ downgrading m → Inv n (suc k) (load_alloc i s)
  unfolding load_alloc
  reload_alloc-Inv m at =
      let arcs_fit = arcs-le count i lt in
      let locks_fit = locks-le count i lt in
      let weaks_change = sum-put weaks_of n i s.threads (alloc_loaded s (s.threads i)) lt in
      let weaks_fit = weaks-le count i lt in
      record {
        count =
            still-Tally count i lt (alloc_loaded s (s.threads i)) (ground arith) (ground arith)
              (ground arith);
        freed_once = freed_once;
        alive = λ h. ground (arith, alive, downgrader i m lt at);
        last_dead =
            λ j l h. ground (arith, last_dead j, count.exact, count.locked, downgrader i m lt at);
        last_one = λ j q l l' h h'. ground (
          arith,
          last_one j q,
          last_dead j,
          last_dead q,
          count.exact,
          count.locked,
          downgrader i m lt at,
        );
        settled = λ h. ground (arith, settled, downgrader i m lt at);
        dropped_once = dropped_once;
        undropped = λ h. ground (arith, undropped, downgrader i m lt at);
        clearing = λ j l h. ground (arith, clearing j, undropped, downgrader i m lt at);
        clearing_one = λ j q l l' h h'.
            ground (arith, clearing_one j q, clearing j, clearing q, downgrader i m lt at);
        cleared = λ h. ground (arith, cleared, downgrader i m lt at);
        finishing = λ j l h. ground (arith, finishing j, downgrader i m lt at);
        borrower = λ j l h. ground (
          arith,
          borrower j,
          count.exact,
          count.locked,
          two_arcs count i lt j l,
          downgrader i m lt at,
        );
        upgrader = λ j q l h. ground (arith, upgrader j q);
        downgrader = λ j q l h.
            ground (arith, downgrader j q, count.exact, count.locked, downgrader i m lt at);
        running = λ j l. ground (arith, running j);
      }

  pub try_downgrade-Inv :
      (b : Bool) (m : ℕ)
      → (s.threads i).pc ≡ downgrading m
      → m + 2 < modulus
      → Inv n (suc k) (try_downgrade i b m s)
  unfolding try_downgrade
  try_downgrade-Inv b m at below =
      let arcs_fit = arcs-le count i lt in
      let locks_fit = locks-le count i lt in
      let weaks_fit = weaks-le count i lt in
      record {
        count =
            try_downgrade-Counted s count few i lt b m at (ground (arith, downgrader i m)) below;
        freed_once = freed_once;
        alive = λ h. ground (
          arith,
          alive,
          sum-put weaks_of n i s.threads (downgrade_tried b m s (s.threads i)) lt,
          downgrader i m lt at,
          count.exact,
          count.locked,
        );
        last_dead = λ j l h. ground (
          arith,
          last_dead j,
          count.exact,
          count.locked,
          sum-put weaks_of n i s.threads (downgrade_tried b m s (s.threads i)) lt,
          downgrader i m lt at,
          count.exact,
          count.locked,
        );
        last_one = λ j q l l' h h'. ground (
          arith,
          last_one j q,
          last_dead j,
          last_dead q,
          count.exact,
          count.locked,
          sum-put weaks_of n i s.threads (downgrade_tried b m s (s.threads i)) lt,
          downgrader i m lt at,
          count.exact,
          count.locked,
        );
        settled = λ h. ground (
          arith,
          settled,
          sum-put weaks_of n i s.threads (downgrade_tried b m s (s.threads i)) lt,
          downgrader i m lt at,
          count.exact,
          count.locked,
        );
        dropped_once = dropped_once;
        undropped = λ h. ground (
          arith,
          undropped,
          sum-put weaks_of n i s.threads (downgrade_tried b m s (s.threads i)) lt,
          downgrader i m lt at,
          count.exact,
          count.locked,
        );
        clearing = λ j l h. ground (
          arith,
          clearing j,
          undropped,
          sum-put weaks_of n i s.threads (downgrade_tried b m s (s.threads i)) lt,
          downgrader i m lt at,
          count.exact,
          count.locked,
        );
        clearing_one = λ j q l l' h h'. ground (
          arith,
          clearing_one j q,
          clearing j,
          clearing q,
          sum-put weaks_of n i s.threads (downgrade_tried b m s (s.threads i)) lt,
          downgrader i m lt at,
          count.exact,
          count.locked,
        );
        cleared = λ h. ground (
          arith,
          cleared,
          sum-put weaks_of n i s.threads (downgrade_tried b m s (s.threads i)) lt,
          downgrader i m lt at,
          count.exact,
          count.locked,
        );
        finishing = λ j l h. ground (
          arith,
          finishing j,
          sum-put weaks_of n i s.threads (downgrade_tried b m s (s.threads i)) lt,
          downgrader i m lt at,
          count.exact,
          count.locked,
        );
        borrower = λ j l h. ground (
          arith,
          borrower j,
          count.exact,
          count.locked,
          two_arcs count i lt j l,
          sum-put weaks_of n i s.threads (downgrade_tried b m s (s.threads i)) lt,
          downgrader i m lt at,
          count.exact,
          count.locked,
        );
        upgrader = λ j q l h. ground (arith, upgrader j q);
        downgrader = λ j q l h. ground (
          arith,
          downgrader j q,
          sum-put weaks_of n i s.threads (downgrade_tried b m s (s.threads i)) lt,
          downgrader i m lt at,
          count.exact,
          count.locked,
        );
        running = λ j l. ground (arith, running j);
      }
