-- ===== src/Arc/Optimized/Counting.antt =====
-- `clone`, `upgrade` and `downgrade` keep the counts of an `Arc` with an implicit weak pointer exact.
use rust_atomics_and_locks.Base.{ℕ, suc, ◌+◌, ◌<◌, ◌≡◌, ◌≢◌, Bool, arith, sum-put}
use rust_atomics_and_locks.Arc.Word.{modulus, max_half}
use rust_atomics_and_locks.Arc.Optimized.{
  idle, upgrading, downgrading, ArcData, cloned, clone_arc, weak_cloned, clone_one_weak,
  upgrade_tried, try_upgrade, downgrade_tried, try_downgrade,
}
use rust_atomics_and_locks.Arc.Optimized.Tally.{
  arcs_of, weaks_of, locks_of, Counted, arcs-le, weaks-le, locks-le, locks-le-strong,
}

module _ {T : Type 0} {n k : ℕ} (s : ArcData T) (c : Counted n k s) (few : k + 2 < max_half) (i : ℕ)
    (lt : i < n) where
  open c use {strong_exact, lock_arcs, one_lock, exact, locked, small, strong_small}

  pub clone_arc-Counted :
      (s.threads i).pc ≡ idle → 0 < (s.threads i).arcs → Counted n (suc k) (clone_arc i s)
  unfolding clone_arc
  clone_arc-Counted at some =
      let arcs_change = sum-put arcs_of n i s.threads (cloned s (s.threads i)) lt in
      let arcs_fit = arcs-le c i lt in
      let locks_change = sum-put locks_of n i s.threads (cloned s (s.threads i)) lt in
      let locks_fit = locks-le c i lt in
      let strong_fit = locks-le-strong c i lt in
      let weaks_change = sum-put weaks_of n i s.threads (cloned s (s.threads i)) lt in
      let weaks_fit = weaks-le c i lt in
      record {
        strong_exact = ground arith;
        lock_arcs = λ j l. ground (arith, lock_arcs j);
        one_lock = ground arith;
        exact = λ h. ground (arith, exact, locked);
        locked = λ h. ground (arith, exact, locked);
        small = ground arith;
        strong_small = ground arith;
      }

  pub clone_one_weak-Counted :
      (s.threads i).pc ≡ idle → 0 < (s.threads i).weaks → Counted n (suc k) (clone_one_weak i s)
  unfolding clone_one_weak
  clone_one_weak-Counted at some =
      let arcs_change = sum-put arcs_of n i s.threads (weak_cloned s (s.threads i)) lt in
      let arcs_fit = arcs-le c i lt in
      let locks_change = sum-put locks_of n i s.threads (weak_cloned s (s.threads i)) lt in
      let locks_fit = locks-le c i lt in
      let strong_fit = locks-le-strong c i lt in
      let weaks_change = sum-put weaks_of n i s.threads (weak_cloned s (s.threads i)) lt in
      let weaks_fit = weaks-le c i lt in
      record {
        strong_exact = ground arith;
        lock_arcs = λ j l. ground (arith, lock_arcs j);
        one_lock = ground arith;
        exact = λ h. ground (arith, exact, locked);
        locked = λ h. ground (arith, exact, locked);
        small = ground arith;
        strong_small = ground arith;
      }

  pub try_upgrade-Counted :
      (b : Bool) (m : ℕ)
      → (s.threads i).pc ≡ upgrading m
      → 0 < (s.threads i).weaks
      → m ≢ 0
      → Counted n (suc k) (try_upgrade i b m s)
  unfolding try_upgrade
  try_upgrade-Counted b m at some nz =
      let arcs_fit = arcs-le c i lt in
      let locks_fit = locks-le c i lt in
      let strong_fit = locks-le-strong c i lt in
      let weaks_fit = weaks-le c i lt in
      record {
        strong_exact = ground (
          arith,
          sum-put arcs_of n i s.threads (upgrade_tried b m s (s.threads i)) lt,
          sum-put weaks_of n i s.threads (upgrade_tried b m s (s.threads i)) lt,
          sum-put locks_of n i s.threads (upgrade_tried b m s (s.threads i)) lt,
        );
        lock_arcs = λ j l. ground (arith, lock_arcs j);
        one_lock = ground (
          arith,
          sum-put arcs_of n i s.threads (upgrade_tried b m s (s.threads i)) lt,
          sum-put weaks_of n i s.threads (upgrade_tried b m s (s.threads i)) lt,
          sum-put locks_of n i s.threads (upgrade_tried b m s (s.threads i)) lt,
        );
        exact = λ h. ground (
          arith,
          exact,
          locked,
          sum-put arcs_of n i s.threads (upgrade_tried b m s (s.threads i)) lt,
          sum-put weaks_of n i s.threads (upgrade_tried b m s (s.threads i)) lt,
          sum-put locks_of n i s.threads (upgrade_tried b m s (s.threads i)) lt,
        );
        locked = λ h. ground (
          arith,
          exact,
          locked,
          sum-put arcs_of n i s.threads (upgrade_tried b m s (s.threads i)) lt,
          sum-put weaks_of n i s.threads (upgrade_tried b m s (s.threads i)) lt,
          sum-put locks_of n i s.threads (upgrade_tried b m s (s.threads i)) lt,
        );
        small = ground (
          arith,
          sum-put arcs_of n i s.threads (upgrade_tried b m s (s.threads i)) lt,
          sum-put weaks_of n i s.threads (upgrade_tried b m s (s.threads i)) lt,
          sum-put locks_of n i s.threads (upgrade_tried b m s (s.threads i)) lt,
        );
        strong_small = ground (
          arith,
          sum-put arcs_of n i s.threads (upgrade_tried b m s (s.threads i)) lt,
          sum-put weaks_of n i s.threads (upgrade_tried b m s (s.threads i)) lt,
          sum-put locks_of n i s.threads (upgrade_tried b m s (s.threads i)) lt,
        );
      }

  pub try_downgrade-Counted :
      (b : Bool) (m : ℕ)
      → (s.threads i).pc ≡ downgrading m
      → 0 < (s.threads i).arcs
      → m + 2 < modulus
      → Counted n (suc k) (try_downgrade i b m s)
  unfolding try_downgrade
  try_downgrade-Counted b m at some nz =
      let arcs_fit = arcs-le c i lt in
      let locks_fit = locks-le c i lt in
      let strong_fit = locks-le-strong c i lt in
      let weaks_fit = weaks-le c i lt in
      record {
        strong_exact = ground (
          arith,
          sum-put arcs_of n i s.threads (downgrade_tried b m s (s.threads i)) lt,
          sum-put weaks_of n i s.threads (downgrade_tried b m s (s.threads i)) lt,
          sum-put locks_of n i s.threads (downgrade_tried b m s (s.threads i)) lt,
        );
        lock_arcs = λ j l. ground (arith, lock_arcs j);
        one_lock = ground (
          arith,
          sum-put arcs_of n i s.threads (downgrade_tried b m s (s.threads i)) lt,
          sum-put weaks_of n i s.threads (downgrade_tried b m s (s.threads i)) lt,
          sum-put locks_of n i s.threads (downgrade_tried b m s (s.threads i)) lt,
        );
        exact = λ h. ground (
          arith,
          exact,
          locked,
          sum-put arcs_of n i s.threads (downgrade_tried b m s (s.threads i)) lt,
          sum-put weaks_of n i s.threads (downgrade_tried b m s (s.threads i)) lt,
          sum-put locks_of n i s.threads (downgrade_tried b m s (s.threads i)) lt,
        );
        locked = λ h. ground (
          arith,
          exact,
          locked,
          sum-put arcs_of n i s.threads (downgrade_tried b m s (s.threads i)) lt,
          sum-put weaks_of n i s.threads (downgrade_tried b m s (s.threads i)) lt,
          sum-put locks_of n i s.threads (downgrade_tried b m s (s.threads i)) lt,
        );
        small = ground (
          arith,
          sum-put arcs_of n i s.threads (downgrade_tried b m s (s.threads i)) lt,
          sum-put weaks_of n i s.threads (downgrade_tried b m s (s.threads i)) lt,
          sum-put locks_of n i s.threads (downgrade_tried b m s (s.threads i)) lt,
        );
        strong_small = ground (
          arith,
          sum-put arcs_of n i s.threads (downgrade_tried b m s (s.threads i)) lt,
          sum-put weaks_of n i s.threads (downgrade_tried b m s (s.threads i)) lt,
          sum-put locks_of n i s.threads (downgrade_tried b m s (s.threads i)) lt,
        );
      }
