-- ===== src/Arc/Optimized/Moving.antt =====
-- Moves of handles keep the invariant.
use rust_atomics_and_locks.Base.{ℕ, suc, ◌+◌, ◌<◌, ◌≡◌, arith, put, sum, sum-put}
use rust_atomics_and_locks.Arc.Word.{max_half}
use rust_atomics_and_locks.Arc.Optimized.{
  idle, Thread, ArcData, hand_over, hand_over_weak, given, received, given_weak, received_weak,
}
use rust_atomics_and_locks.Arc.Optimized.Tally.{weaks_of, arcs-le, weaks-le, two_arcs}
use rust_atomics_and_locks.Arc.Optimized.Releasing.{hand_over-Counted, hand_over_weak-Counted}
use rust_atomics_and_locks.Arc.Optimized.Life.{Inv}

module _ {T : Type 0} {n k : ℕ} {s : ArcData T} (few : k + 2 < max_half) (inv : Inv n k s) (i : ℕ)
    (lt : i < n) where
  open inv use {
    count, freed_once, alive, last_dead, last_one, settled, dropped_once, undropped, clearing,
    clearing_one, cleared, finishing, borrower, upgrader, downgrader, running,
  }

  pub hand_over-weaks :
      (j : ℕ)
      → j < n
      → 0 < (s.threads i).arcs
      → sum weaks_of n (hand_over i j s).threads ≡ sum weaks_of n s.threads
  unfolding hand_over
  hand_over-weaks j lj some = omega (
    arith,
    sum-put weaks_of n i s.threads t lt,
    sum-put weaks_of n j left (received (s.threads i).local.seen (left j)) lj,
  )
    where
      t : Thread
      t = given (s.threads i)

      left : ℕ → Thread
      left = put s.threads i t

  pub hand_over-Inv :
      (j : ℕ)
      → j < n
      → (s.threads i).pc ≡ idle
      → 0 < (s.threads i).arcs
      → Inv n (suc k) (hand_over i j s)
  unfolding hand_over
  hand_over-Inv j lj at some = record {
    count = hand_over-Counted s count few i lt j lj at some;
    freed_once = freed_once;
    alive = λ h. alive (omega (arith, hand_over-weaks j lj some));
    last_dead = λ m l h.
        ground
          (arith, last_dead m, hand_over-weaks j lj some, weaks-le count i lt, arcs-le count i lt);
    last_one = λ m q l l' h h'. ground (arith, last_one m q);
    settled = λ h.
        ground (arith, settled, hand_over-weaks j lj some, weaks-le count i lt, arcs-le count i lt);
    dropped_once = dropped_once;
    undropped = undropped;
    clearing = λ m l h. ground (arith, clearing m);
    clearing_one = λ m q l l' h h'. ground (arith, clearing_one m q);
    cleared = λ h.
        ground (arith, cleared, hand_over-weaks j lj some, weaks-le count i lt, arcs-le count i lt);
    finishing = λ m l h. ground (arith, finishing m);
    borrower = λ m l h. ground (
      arith,
      borrower m,
      count.exact,
      count.locked,
      two_arcs count i lt m l,
      hand_over-weaks j lj some,
      weaks-le count i lt,
      arcs-le count i lt,
    );
    upgrader = λ m q l h. ground (arith, upgrader m q);
    downgrader = λ m q l h. ground (arith, downgrader m q);
    running = λ m l. ground (arith, running m, running i);
  }

  pub hand_over_weak-weaks :
      (j : ℕ)
      → j < n
      → 0 < (s.threads i).weaks
      → sum weaks_of n (hand_over_weak i j s).threads ≡ sum weaks_of n s.threads
  unfolding hand_over_weak
  hand_over_weak-weaks j lj some = omega (
    arith,
    sum-put weaks_of n i s.threads t lt,
    sum-put weaks_of n j left (received_weak (s.threads i).local.seen (left j)) lj,
  )
    where
      t : Thread
      t = given_weak (s.threads i)

      left : ℕ → Thread
      left = put s.threads i t

  pub hand_over_weak-Inv :
      (j : ℕ)
      → j < n
      → (s.threads i).pc ≡ idle
      → 0 < (s.threads i).weaks
      → Inv n (suc k) (hand_over_weak i j s)
  unfolding hand_over_weak
  hand_over_weak-Inv j lj at some = record {
    count = hand_over_weak-Counted s count few i lt j lj at some;
    freed_once = freed_once;
    alive = λ h. alive (omega (arith, hand_over_weak-weaks j lj some));
    last_dead = λ m l h. ground (
      arith,
      last_dead m,
      hand_over_weak-weaks j lj some,
      weaks-le count i lt,
      arcs-le count i lt,
    );
    last_one = λ m q l l' h h'. ground (arith, last_one m q);
    settled = λ h.
        ground
          (arith, settled, hand_over_weak-weaks j lj some, weaks-le count i lt, arcs-le count i lt);
    dropped_once = dropped_once;
    undropped = undropped;
    clearing = λ m l h. ground (arith, clearing m);
    clearing_one = λ m q l l' h h'. ground (arith, clearing_one m q);
    cleared = λ h.
        ground
          (arith, cleared, hand_over_weak-weaks j lj some, weaks-le count i lt, arcs-le count i lt);
    finishing = λ m l h. ground (arith, finishing m);
    borrower = λ m l h. ground (
      arith,
      borrower m,
      count.exact,
      count.locked,
      two_arcs count i lt m l,
      hand_over_weak-weaks j lj some,
      weaks-le count i lt,
      arcs-le count i lt,
    );
    upgrader = λ m q l h. ground (arith, upgrader m q);
    downgrader = λ m q l h. ground (arith, downgrader m q);
    running = λ m l. ground (arith, running m, running i);
  }
