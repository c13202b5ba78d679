-- ===== src/Arc/Optimized/Releasing.antt =====
-- Drops, the lock of `get_mut` and moves of handles keep the counts of an `Arc` exact.
use rust_atomics_and_locks.Base.{ℕ, suc, ◌+◌, ◌<◌, ◌≡◌, Bool, arith, put, sum-put}
use rust_atomics_and_locks.Arc.Word.{max_half}
use rust_atomics_and_locks.Arc.Optimized.{
  idle, dropping, tested, Thread, ArcData, arc_dropped, drop_arc, implicit_dropped,
  drop_implicit_weak, weak_dropped, drop_one_weak, lock_tried, try_lock, unlocked, unlock_alloc,
  hand_over, hand_over_weak, given, received, given_weak, received_weak,
}
use rust_atomics_and_locks.Arc.Optimized.Tally.{
  arcs_of, weaks_of, locks_of, Counted, arcs-le, weaks-le, locks-le, locks-le-strong,
}

module _ {T : Type 0} {n k : ℕ} (s : ArcData T) (c : Counted n k s) (few : k + 2 < max_half) (i : ℕ)
    (lt : i < n) where
  open c use {strong_exact, lock_arcs, one_lock, exact, locked, small, strong_small}

  pub drop_arc-Counted :
      (s.threads i).pc ≡ idle → 0 < (s.threads i).arcs → Counted n (suc k) (drop_arc i s)
  unfolding drop_arc
  drop_arc-Counted at some =
      let arcs_change = sum-put arcs_of n i s.threads (arc_dropped s (s.threads i)) lt in
      let arcs_fit = arcs-le c i lt in
      let locks_change = sum-put locks_of n i s.threads (arc_dropped s (s.threads i)) lt in
      let locks_fit = locks-le c i lt in
      let strong_fit = locks-le-strong c i lt in
      let weaks_change = sum-put weaks_of n i s.threads (arc_dropped s (s.threads i)) lt in
      let weaks_fit = weaks-le c i lt in
      record {
        strong_exact = ground arith;
        lock_arcs = λ j l. ground (arith, lock_arcs j);
        one_lock = ground arith;
        exact = λ h. ground (arith, exact, locked);
        locked = λ h. ground (arith, exact, locked);
        small = ground arith;
        strong_small = ground arith;
      }

  pub drop_implicit_weak-Counted :
      (s.threads i).pc ≡ dropping → Counted n (suc k) (drop_implicit_weak i s)
  unfolding drop_implicit_weak
  drop_implicit_weak-Counted at =
      let arcs_change = sum-put arcs_of n i s.threads (implicit_dropped s (s.threads i)) lt in
      let arcs_fit = arcs-le c i lt in
      let locks_change = sum-put locks_of n i s.threads (implicit_dropped s (s.threads i)) lt in
      let locks_fit = locks-le c i lt in
      let strong_fit = locks-le-strong c i lt in
      let weaks_change = sum-put weaks_of n i s.threads (implicit_dropped s (s.threads i)) lt in
      let weaks_fit = weaks-le c i lt in
      record {
        strong_exact = ground arith;
        lock_arcs = λ j l. ground (arith, lock_arcs j);
        one_lock = ground arith;
        exact = λ h. ground (arith, exact, locked);
        locked = λ h. ground (arith, exact, locked);
        small = ground arith;
        strong_small = ground arith;
      }

  pub drop_one_weak-Counted :
      (s.threads i).pc ≡ idle → 0 < (s.threads i).weaks → Counted n (suc k) (drop_one_weak i s)
  unfolding drop_one_weak
  drop_one_weak-Counted at some =
      let arcs_change = sum-put arcs_of n i s.threads (weak_dropped s (s.threads i)) lt in
      let arcs_fit = arcs-le c i lt in
      let locks_change = sum-put locks_of n i s.threads (weak_dropped s (s.threads i)) lt in
      let locks_fit = locks-le c i lt in
      let strong_fit = locks-le-strong c i lt in
      let weaks_change = sum-put weaks_of n i s.threads (weak_dropped s (s.threads i)) lt in
      let weaks_fit = weaks-le c i lt in
      record {
        strong_exact = ground arith;
        lock_arcs = λ j l. ground (arith, lock_arcs j);
        one_lock = ground arith;
        exact = λ h. ground (arith, exact, locked);
        locked = λ h. ground (arith, exact, locked);
        small = ground arith;
        strong_small = ground arith;
      }

  pub try_lock-Counted :
      (s.threads i).pc ≡ idle → 0 < (s.threads i).arcs → Counted n (suc k) (try_lock i s)
  unfolding try_lock
  try_lock-Counted at some =
      let arcs_change = sum-put arcs_of n i s.threads (lock_tried s (s.threads i)) lt in
      let arcs_fit = arcs-le c i lt in
      let locks_change = sum-put locks_of n i s.threads (lock_tried s (s.threads i)) lt in
      let locks_fit = locks-le c i lt in
      let strong_fit = locks-le-strong c i lt in
      let weaks_change = sum-put weaks_of n i s.threads (lock_tried s (s.threads i)) lt in
      let weaks_fit = weaks-le c i lt in
      record {
        strong_exact = ground arith;
        lock_arcs = λ j l. ground (arith, lock_arcs j);
        one_lock = ground arith;
        exact = λ h. ground (arith, exact, locked);
        locked = λ h. ground (arith, exact, locked);
        small = ground arith;
        strong_small = ground arith;
      }

  pub unlock_alloc-Counted :
      (u : Bool) → (s.threads i).pc ≡ tested u → Counted n (suc k) (unlock_alloc i u s)
  unfolding unlock_alloc
  unlock_alloc-Counted u at =
      let arcs_change = sum-put arcs_of n i s.threads (unlocked u (s.threads i)) lt in
      let arcs_fit = arcs-le c i lt in
      let locks_change = sum-put locks_of n i s.threads (unlocked u (s.threads i)) lt in
      let locks_fit = locks-le c i lt in
      let strong_fit = locks-le-strong c i lt in
      let weaks_change = sum-put weaks_of n i s.threads (unlocked u (s.threads i)) lt in
      let weaks_fit = weaks-le c i lt in
      record {
        strong_exact = ground arith;
        lock_arcs = λ j l. ground (arith, lock_arcs j);
        one_lock = ground arith;
        exact = λ h. ground (arith, exact, locked);
        locked = λ h. ground (arith, exact, locked);
        small = ground arith;
        strong_small = ground arith;
      }

  pub hand_over-Counted :
      (j : ℕ)
      → j < n
      → (s.threads i).pc ≡ idle
      → 0 < (s.threads i).arcs
      → Counted n (suc k) (hand_over i j s)
  unfolding hand_over
  hand_over-Counted j lj at some = record {
    strong_exact =
        omega (arith, sum-put arcs_of n i s.threads t lt, sum-put arcs_of n j left t' lj);
    lock_arcs = λ m l. ground (arith, lock_arcs m, lock_arcs i);
    one_lock = omega (arith, sum-put locks_of n i s.threads t lt, sum-put locks_of n j left t' lj);
    exact = λ h. omega (
      arith,
      exact (omega (arith, sum-put locks_of n i s.threads t lt, sum-put locks_of n j left t' lj)),
      sum-put weaks_of n i s.threads t lt,
      sum-put weaks_of n j left t' lj,
    );
    locked = λ h. omega (
      arith,
      locked (omega (arith, sum-put locks_of n i s.threads t lt, sum-put locks_of n j left t' lj)),
      sum-put weaks_of n i s.threads t lt,
      sum-put weaks_of n j left t' lj,
    );
    small = omega (arith, sum-put weaks_of n i s.threads t lt, sum-put weaks_of n j left t' lj);
    strong_small = omega arith;
  }
    where
      t : Thread
      t = given (s.threads i)

      left : ℕ → Thread
      left = put s.threads i t

      t' : Thread
      t' = received (s.threads i).local.seen (left j)

  pub hand_over_weak-Counted :
      (j : ℕ)
      → j < n
      → (s.threads i).pc ≡ idle
      → 0 < (s.threads i).weaks
      → Counted n (suc k) (hand_over_weak i j s)
  unfolding hand_over_weak
  hand_over_weak-Counted j lj at some = record {
    strong_exact =
        omega (arith, sum-put arcs_of n i s.threads t lt, sum-put arcs_of n j left t' lj);
    lock_arcs = λ m l. ground (arith, lock_arcs m, lock_arcs i);
    one_lock = omega (arith, sum-put locks_of n i s.threads t lt, sum-put locks_of n j left t' lj);
    exact = λ h. omega (
      arith,
      exact (omega (arith, sum-put locks_of n i s.threads t lt, sum-put locks_of n j left t' lj)),
      sum-put weaks_of n i s.threads t lt,
      sum-put weaks_of n j left t' lj,
    );
    locked = λ h. omega (
      arith,
      locked (omega (arith, sum-put locks_of n i s.threads t lt, sum-put locks_of n j left t' lj)),
      sum-put weaks_of n i s.threads t lt,
      sum-put weaks_of n j left t' lj,
    );
    small = omega (arith, sum-put weaks_of n i s.threads t lt, sum-put weaks_of n j left t' lj);
    strong_small = omega arith;
  }
    where
      t : Thread
      t = given_weak (s.threads i)

      left : ℕ → Thread
      left = put s.threads i t

      t' : Thread
      t' = received_weak (s.threads i).local.seen (left j)
