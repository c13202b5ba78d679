-- ===== src/Arc/Optimized/Using.antt =====
-- `get_mut` and the accesses to the data keep the invariant.
use rust_atomics_and_locks.Base.{ℕ, suc, ◌+◌, ◌<◌, ◌≡◌, Bool, arith, sum-put}
use rust_atomics_and_locks.Arc.Word.{max_half}
use rust_atomics_and_locks.Arc.Optimized.{
  idle, locking, exclusive, tested, ArcData, lock_tried, try_lock, unique_tested, test_unique,
  unlocked, unlock_alloc, noted, update, read,
}
use rust_atomics_and_locks.Arc.Optimized.Tally.{
  weaks_of, arcs-le, weaks-le, locks-le, two_arcs, still-Tally,
}
use rust_atomics_and_locks.Arc.Optimized.Releasing.{try_lock-Counted, unlock_alloc-Counted}
use rust_atomics_and_locks.Arc.Optimized.Life.{Inv}

module _ {T : Type 0} {n k : ℕ} {s : ArcData T} (few : k + 2 < max_half) (inv : Inv n k s) (i : ℕ)
    (lt : i < n) where
  open inv use {
    count, freed_once, alive, last_dead, last_one, settled, dropped_once, undropped, clearing,
    clearing_one, cleared, finishing, borrower, upgrader, downgrader, running,
  }

  pub try_lock-Inv : (s.threads i).pc ≡ idle → 0 < (s.threads i).arcs → Inv n (suc k) (try_lock i s)
  unfolding try_lock
  try_lock-Inv at some =
      let arcs_fit = arcs-le count i lt in
      let locks_fit = locks-le count i lt in
      let weaks_change = sum-put weaks_of n i s.threads (lock_tried s (s.threads i)) lt in
      let weaks_fit = weaks-le count i lt in
      record {
        count = try_lock-Counted s count few i lt at some;
        freed_once = freed_once;
        alive = λ h. ground (arith, alive);
        last_dead = λ j l h. ground (arith, last_dead j, count.exact, count.locked);
        last_one = λ j m l l' h h'.
            ground (arith, last_one j m, last_dead j, last_dead m, count.exact, count.locked);
        settled = λ h. ground (arith, settled);
        dropped_once = dropped_once;
        undropped = λ h. ground (arith, undropped);
        clearing = λ j l h. ground (arith, clearing j, undropped);
        clearing_one = λ j m l l' h h'. ground (arith, clearing_one j m, clearing j, clearing m);
        cleared = λ h. ground (arith, cleared);
        finishing = λ j l h. ground (arith, finishing j);
        borrower =
            λ j l h. ground (arith, borrower j, count.exact, count.locked, two_arcs count i lt j l);
        upgrader = λ j m l h. ground (arith, upgrader j m);
        downgrader = λ j m l h. ground (arith, downgrader j m);
        running = λ j l. ground (arith, running j);
      }

  pub test_unique-Inv :
      (seen : ℕ) → (s.threads i).pc ≡ locking → Inv n (suc k) (test_unique i seen s)
  unfolding test_unique
  test_unique-Inv seen at =
      let arcs_fit = arcs-le count i lt in
      let locks_fit = locks-le count i lt in
      let weaks_change = sum-put weaks_of n i s.threads (unique_tested seen (s.threads i)) lt in
      let weaks_fit = weaks-le count i lt in
      record {
        count =
            still-Tally count i lt (unique_tested seen (s.threads i)) (ground arith) (ground arith)
              (ground arith);
        freed_once = freed_once;
        alive = λ h. ground (arith, alive);
        last_dead = λ j l h. ground (arith, last_dead j, count.exact, count.locked);
        last_one = λ j m l l' h h'.
            ground (arith, last_one j m, last_dead j, last_dead m, count.exact, count.locked);
        settled = λ h. ground (arith, settled);
        dropped_once = dropped_once;
        undropped = λ h. ground (arith, undropped);
        clearing = λ j l h. ground (arith, clearing j, undropped);
        clearing_one = λ j m l l' h h'. ground (arith, clearing_one j m, clearing j, clearing m);
        cleared = λ h. ground (arith, cleared);
        finishing = λ j l h. ground (arith, finishing j);
        borrower =
            λ j l h. ground (arith, borrower j, count.exact, count.locked, two_arcs count i lt j l);
        upgrader = λ j m l h. ground (arith, upgrader j m);
        downgrader = λ j m l h. ground (arith, downgrader j m);
        running = λ j l. ground (arith, running j);
      }

  pub unlock_alloc-Inv :
      (u : Bool) → (s.threads i).pc ≡ tested u → Inv n (suc k) (unlock_alloc i u s)
  unfolding unlock_alloc
  unlock_alloc-Inv u at =
      let arcs_fit = arcs-le count i lt in
      let locks_fit = locks-le count i lt in
      let weaks_change = sum-put weaks_of n i s.threads (unlocked u (s.threads i)) lt in
      let weaks_fit = weaks-le count i lt in
      record {
        count = unlock_alloc-Counted s count few i lt u at;
        freed_once = freed_once;
        alive = λ h. ground (arith, alive);
        last_dead = λ j l h. ground (arith, last_dead j, count.exact, count.locked);
        last_one = λ j m l l' h h'.
            ground (arith, last_one j m, last_dead j, last_dead m, count.exact, count.locked);
        settled = λ h. ground (arith, settled);
        dropped_once = dropped_once;
        undropped = λ h. ground (arith, undropped);
        clearing = λ j l h. ground (arith, clearing j, undropped);
        clearing_one = λ j m l l' h h'. ground (arith, clearing_one j m, clearing j, clearing m);
        cleared = λ h. ground (arith, cleared);
        finishing = λ j l h. ground (arith, finishing j);
        borrower = λ j l h. ground (
          arith,
          borrower j,
          count.exact,
          count.locked,
          two_arcs count i lt j l,
          count.lock_arcs i,
        );
        upgrader = λ j m l h. ground (arith, upgrader j m);
        downgrader = λ j m l h. ground (arith, downgrader j m);
        running = λ j l. ground (arith, running j);
      }

  pub update-Inv : (f : T → T) → (s.threads i).pc ≡ exclusive → Inv n (suc k) (update i f s)
  unfolding update
  update-Inv f at =
      let arcs_fit = arcs-le count i lt in
      let locks_fit = locks-le count i lt in
      let weaks_change = sum-put weaks_of n i s.threads (noted idle s i (s.threads i)) lt in
      let weaks_fit = weaks-le count i lt in
      record {
        count =
            still-Tally count i lt (noted idle s i (s.threads i)) (ground arith) (ground arith)
              (ground arith);
        freed_once = freed_once;
        alive = λ h. ground (arith, alive);
        last_dead = λ j l h. ground (arith, last_dead j, count.exact, count.locked);
        last_one = λ j m l l' h h'.
            ground (arith, last_one j m, last_dead j, last_dead m, count.exact, count.locked);
        settled = λ h. ground (arith, settled);
        dropped_once = dropped_once;
        undropped = λ h. ground (arith, undropped);
        clearing = λ j l h. ground (arith, clearing j, undropped);
        clearing_one = λ j m l l' h h'. ground (arith, clearing_one j m, clearing j, clearing m);
        cleared = λ h. ground (arith, cleared);
        finishing = λ j l h. ground (arith, finishing j);
        borrower =
            λ j l h. ground (arith, borrower j, count.exact, count.locked, two_arcs count i lt j l);
        upgrader = λ j m l h. ground (arith, upgrader j m);
        downgrader = λ j m l h. ground (arith, downgrader j m);
        running = λ j l. ground (arith, running j);
      }

  pub read-Inv : (s.threads i).pc ≡ idle → Inv n (suc k) (read i s)
  unfolding read
  read-Inv at =
      let arcs_fit = arcs-le count i lt in
      let locks_fit = locks-le count i lt in
      let weaks_change = sum-put weaks_of n i s.threads (noted idle s i (s.threads i)) lt in
      let weaks_fit = weaks-le count i lt in
      record {
        count =
            still-Tally count i lt (noted idle s i (s.threads i)) (ground arith) (ground arith)
              (ground arith);
        freed_once = freed_once;
        alive = λ h. ground (arith, alive);
        last_dead = λ j l h. ground (arith, last_dead j, count.exact, count.locked);
        last_one = λ j m l l' h h'.
            ground (arith, last_one j m, last_dead j, last_dead m, count.exact, count.locked);
        settled = λ h. ground (arith, settled);
        dropped_once = dropped_once;
        undropped = λ h. ground (arith, undropped);
        clearing = λ j l h. ground (arith, clearing j, undropped);
        clearing_one = λ j m l l' h h'. ground (arith, clearing_one j m, clearing j, clearing m);
        cleared = λ h. ground (arith, cleared);
        finishing = λ j l h. ground (arith, finishing j);
        borrower =
            λ j l h. ground (arith, borrower j, count.exact, count.locked, two_arcs count i lt j l);
        upgrader = λ j m l h. ground (arith, upgrader j m);
        downgrader = λ j m l h. ground (arith, downgrader j m);
        running = λ j l. ground (arith, running j);
      }
