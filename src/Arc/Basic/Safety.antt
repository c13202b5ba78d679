-- ===== src/Arc/Basic/Safety.antt =====
-- What the `Arc` of examples/06-01_basic-reference-counter.rs and 06-01-02_updating.rs promises.
use rust_atomics_and_locks.Base.{
  ℕ, ◌+◌, ◌≤◌, ◌<◌, ◌≡◌, ◌≢◌, inl, inr, List, arith, sum, sum-eq-zero,
}
use rust_atomics_and_locks.Memory.{Covers}
use rust_atomics_and_locks.Arc.Word.{modulus, max_half}
use rust_atomics_and_locks.Arc.Basic.{idle, exclusive, Action, after}
use rust_atomics_and_locks.Arc.Basic.Counting.{owed, value_bounded, handles-le-value, two_handles}
use rust_atomics_and_locks.Arc.Basic.Steps.{Good, after-Good}

module _ {T : Type 0} (n : ℕ) (few : n + 1 < max_half) (some : 0 < n) (es : List (ℕ × Action T))
    (v : T) where
  good : Good n (after n es v)
  good = after-Good few es v some

  -- The count is the number of handles that the threads hold, with one for each thread that is
  -- about to abort, and stays below `usize::MAX`: with fewer than `usize::MAX / 2 - 1` threads it
  -- never wraps.
  pub ref_count_exact :
      ((after n es v).ref_count.value ≡ sum owed n (after n es v).threads)
      × ((after n es v).ref_count.value + 1 < modulus)
  ref_count_exact = (good.life.count.exact, value_bounded (after n es v) good.life.count few)

  -- A thread that holds a handle, through which it may read, finds the box not yet dropped.
  pub no_use_after_free :
      (i : ℕ) → i < n → 0 < ((after n es v).threads i).handles → (after n es v).freed ≡ 0
  no_use_after_free i lt has =
      good.life.alive (omega (arith, handles-le-value (after n es v) good.life.count i lt))

  -- The box is dropped once at most.
  pub dropped_at_most_once : (after n es v).freed ≤ 1
  dropped_at_most_once = good.life.freed_once

  -- Nothing leaks: when all handles are gone and no call is under way, the box has been dropped,
  -- and just once.
  pub dropped_exactly_once :
      ((i : ℕ)
        → i < n
        → (((after n es v).threads i).handles ≡ 0) × (((after n es v).threads i).pc ≡ idle))
      → (after n es v).freed ≡ 1
  dropped_exactly_once gone = elim (good.life.settled none) [
    | inl done ↦ done
    | inr (i, lt, at) ↦ absurd (cc ((gone i lt).1))
  ]
    where
      none : (after n es v).ref_count.value ≡ 0
      none = omega (
        arith,
        good.life.count.exact,
        sum-eq-zero owed n (after n es v).threads (λ i lt. ground (arith, gone i lt)),
      )

  -- While a thread has the mutable reference of `get_mut`, no other thread has a handle.
  pub get_mut_exclusive :
      (i j : ℕ)
      → i < n
      → j < n
      → i ≢ j
      → ((after n es v).threads i).pc ≡ exclusive
      → ((after n es v).threads j).handles ≡ 0
  get_mut_exclusive i j lt l apart at =
      omega
        (arith, good.life.alone i lt at, two_handles (after n es v) good.life.count i j lt l apart)

  -- A thread that has the mutable reference of `get_mut` has just one handle, and every access to
  -- the data so far, by any thread, happens before its next one.
  pub get_mut_race_free :
      (i : ℕ)
      → i < n
      → ((after n es v).threads i).pc ≡ exclusive
      → (((after n es v).threads i).handles ≡ 1)
        × Covers ((after n es v).threads i).local.seen (after n es v).content.accesses
  get_mut_race_free i lt at = ((good.life.alone i lt at).1, λ k. good.views.owner_knows i k lt at)

  -- Every write through a mutable reference, and every access before it, happens before the reads
  -- of each thread that holds a handle.
  pub deref_race_free :
      (i : ℕ)
      → i < n
      → 0 < ((after n es v).threads i).handles
      → Covers ((after n es v).threads i).local.seen (after n es v).written
  deref_race_free i lt has k = good.views.reader_knows i k lt has
