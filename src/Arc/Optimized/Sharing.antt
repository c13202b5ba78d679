-- ===== src/Arc/Optimized/Sharing.antt =====
-- `get_mut`, the accesses and the moves of handles keep what the threads know.
use rust_atomics_and_locks.Base.{ℕ, ◌<◌, ◌≡◌, inl, inr, Bool, arith, ◌==◌, Bool-cases}
use rust_atomics_and_locks.Arc.Optimized.{
  idle, locking, exclusive, tested, ArcData, test_unique, unlock_alloc, update, read, hand_over,
  hand_over_weak,
}
use rust_atomics_and_locks.Arc.Optimized.Tally.{arcs-le, weaks-le, two_arcs}
use rust_atomics_and_locks.Arc.Optimized.Life.{Inv}
use rust_atomics_and_locks.Arc.Optimized.Views.{DataViews}

module _ {T : Type 0} {n k : ℕ} (s : ArcData T) (inv : Inv n k s) (v : DataViews n s) (i : ℕ)
    (lt : i < n) where
  open inv use {
    count, freed_once, alive, last_dead, last_one, settled, dropped_once, undropped, clearing,
    clearing_one, cleared, finishing, borrower, upgrader, downgrader, running,
  }
  open v use {known, last_knows}

  held : (s.threads i).pc ≡ locking → 0 < (s.threads i).arcs
  held at = ground (arith, count.lock_arcs i lt)

  pub test_unique-DataViews :
      (seen : ℕ) → (s.threads i).pc ≡ locking → DataViews n (test_unique i seen s)
  unfolding test_unique
  test_unique-DataViews seen at = record {
    known = λ q h. elim (known q (h)) [
      | inl p ↦ inl (ground arith)
      | inr (j, l, has, p) ↦ inr (j, l, ground arith, ground arith)
    ];
    last_knows = λ j q l h. ground (arith, last_knows j q);
  }

  pub unlock_alloc-DataViews :
      (u : Bool) → (s.threads i).pc ≡ tested u → DataViews n (unlock_alloc i u s)
  unfolding unlock_alloc
  unlock_alloc-DataViews u at = record {
    known = λ q h. elim (known q (h)) [
      | inl p ↦ inl (ground arith)
      | inr (j, l, has, p) ↦ inr (j, l, ground arith, ground arith)
    ];
    last_knows = λ j q l h. ground (arith, last_knows j q);
  }

  pub read-DataViews : (s.threads i).pc ≡ idle → 0 < (s.threads i).arcs → DataViews n (read i s)
  unfolding read
  read-DataViews at some = record {
    known = λ q h. elim (Bool-cases (i == q)) [
      | inl same ↦ inr (i, lt, ground arith, ground arith)
      | inr other ↦ elim (known q h) [
        | inl p ↦ inl (ground arith)
        | inr (j, l, has, p) ↦ inr (j, l, ground arith, ground arith)
      ]
    ];
    last_knows = λ j q l h. ground (
      arith,
      last_knows j q,
      clearing j l,
      borrower j l,
      arcs-le count i lt,
      weaks-le count i lt,
      two_arcs count i lt j l,
      count.lock_arcs j,
      count.lock_arcs i,
      arcs-le count j l,
      weaks-le count j l,
    );
  }

  pub update-DataViews : (f : T → T) → (s.threads i).pc ≡ exclusive → DataViews n (update i f s)
  unfolding update
  update-DataViews f at = record {
    known = λ q h. elim (Bool-cases (i == q)) [
      | inl same ↦ inr (i, lt, ground (arith, borrower i lt at), ground arith)
      | inr other ↦ elim (known q h) [
        | inl p ↦ inl (ground arith)
        | inr (j, l, has, p) ↦ inr (j, l, ground arith, ground arith)
      ]
    ];
    last_knows = λ j q l h. ground (
      arith,
      last_knows j q,
      borrower i lt at,
      clearing j l,
      borrower j l,
      arcs-le count i lt,
      weaks-le count i lt,
      two_arcs count i lt j l,
      count.lock_arcs j,
      count.lock_arcs i,
      arcs-le count j l,
      weaks-le count j l,
    );
  }

  pub hand_over-DataViews :
      (j : ℕ)
      → j < n
      → (s.threads i).pc ≡ idle
      → 0 < (s.threads i).arcs
      → DataViews n (hand_over i j s)
  unfolding hand_over
  hand_over-DataViews j lj at some = record {
    known = λ q h. elim (known q h) [
      | inl p ↦ inl p
      | inr (m, l, has, p) ↦ elim (Bool-cases (i == m)) [
        | inl same ↦ inr (j, lj, ground arith, ground arith)
        | inr other ↦ inr (m, l, ground arith, ground arith)
      ]
    ];
    last_knows = λ m q l h. ground (arith, last_knows m q);
  }

  pub hand_over_weak-DataViews :
      (j : ℕ)
      → j < n
      → (s.threads i).pc ≡ idle
      → 0 < (s.threads i).weaks
      → DataViews n (hand_over_weak i j s)
  unfolding hand_over_weak
  hand_over_weak-DataViews j lj at some = record {
    known = λ q h. elim (known q h) [
      | inl p ↦ inl p
      | inr (m, l, has, p) ↦ inr (m, l, ground arith, ground arith)
    ];
    last_knows = λ m q l h. ground (arith, last_knows m q);
  }
