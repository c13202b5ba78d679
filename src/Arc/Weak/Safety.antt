-- ===== src/Arc/Weak/Safety.antt =====
-- What the `Arc` and the `Weak` of examples/06-02_weak-pointer.rs promise.
use rust_atomics_and_locks.Base.{
  ℕ, ◌+◌, ◌*◌, ◌≤◌, ◌<◌, ◌≡◌, ◌≢◌, inl, inr, List, arith, sum, sum-eq-zero,
}
use rust_atomics_and_locks.Arc.Word.{modulus, max_half}
use rust_atomics_and_locks.Arc.Weak.{idle, upgraded, exclusive, panicked, Action, present, after}
use rust_atomics_and_locks.Arc.Weak.Counting.{
  alloc_owed, data_owed, alloc_bounded, data_bounded, alloc-le, data-le, two_owed,
}
use rust_atomics_and_locks.Arc.Weak.Invariant.{Inv}
use rust_atomics_and_locks.Arc.Weak.Steps.{after-Inv}

module _ {T : Type 0} (n : ℕ) (few : 2 * n + 2 < max_half) (some : 0 < n) (es : List (ℕ × Action T))
    (v : T) where
  inv : Inv n (after n es v)
  inv = after-Inv few es v some

  -- Both counts are exact, with what the calls under way have added or have yet to take away, and
  -- stay below `usize::MAX`: with few enough threads neither wraps.
  pub both_counts_exact :
      ((after n es v).alloc_ref_count.value ≡ sum alloc_owed n (after n es v).threads)
      × ((after n es v).data_ref_count.value ≡ sum data_owed n (after n es v).threads)
      × ((after n es v).alloc_ref_count.value + 1 < modulus)
      × ((after n es v).data_ref_count.value + 1 < modulus)
  both_counts_exact = (
    inv.count.alloc_exact,
    inv.count.data_exact,
    alloc_bounded inv.count few,
    data_bounded inv.count few,
  )

  -- With fewer than `usize::MAX / 4 - 1` threads, a thread that holds an `Arc` finds the data
  -- there, dropped by nobody, and the box too.
  pub arc_keeps_data :
      (i : ℕ)
      → i < n
      → 0 < ((after n es v).threads i).arcs
      → (present (after n es v).content.content ≡ 1)
        × ((after n es v).dropped ≡ 0)
        × ((after n es v).freed ≡ 0)
  arc_keeps_data i lt has = (
    ground (arith, inv.whole, inv.undropped, data-le inv.count i lt),
    ground (arith, inv.undropped, data-le inv.count i lt),
    ground (arith, inv.alive, alloc-le inv.count i lt),
  )

  -- A thread that holds a `Weak` finds the box, with the counts, not yet dropped.
  pub weak_keeps_box :
      (i : ℕ) → i < n → 0 < ((after n es v).threads i).weaks → (after n es v).freed ≡ 0
  weak_keeps_box i lt has = ground (arith, inv.alive, alloc-le inv.count i lt)

  -- `upgrade` brings nothing back: when its exchange has succeeded, the data is there, dropped by
  -- nobody.
  pub upgrade_finds_data :
      (i : ℕ)
      → i < n
      → ((after n es v).threads i).pc ≡ upgraded
      → (present (after n es v).content.content ≡ 1) × ((after n es v).dropped ≡ 0)
  upgrade_finds_data i lt at = (
    ground (arith, inv.whole, inv.undropped, data-le inv.count i lt),
    ground (arith, inv.undropped, data-le inv.count i lt),
  )

  -- The data is dropped once at most, and so is the box.
  pub both_dropped_at_most_once : ((after n es v).dropped ≤ 1) × ((after n es v).freed ≤ 1)
  both_dropped_at_most_once = (omega (arith, inv.whole), inv.freed_once)

  -- With fewer than `usize::MAX / 4 - 1` threads, when no thread holds an `Arc` and no call is
  -- under way, the data has been dropped, just once, whether or not there are `Weak`s.
  pub data_dropped_with_last_arc :
      ((i : ℕ)
        → i < n
        → (((after n es v).threads i).arcs ≡ 0) × (((after n es v).threads i).pc ≡ idle))
      → (after n es v).dropped ≡ 1
  data_dropped_with_last_arc gone = elim (inv.cleared gone_data) [
    | inl done ↦ done
    | inr (i, lt, at) ↦ absurd (cc ((gone i lt).1))
  ]
    where
      gone_data : (after n es v).data_ref_count.value ≡ 0
      gone_data = omega (
        arith,
        inv.count.data_exact,
        sum-eq-zero data_owed n (after n es v).threads (λ i lt. ground (arith, gone i lt)),
      )

  -- Nothing leaks: when all handles are gone and no call is under way, the box has been dropped,
  -- just once.
  pub box_dropped_with_last_handle :
      ((i : ℕ)
        → i < n
        → (((after n es v).threads i).arcs ≡ 0)
          × (((after n es v).threads i).weaks ≡ 0)
          × (((after n es v).threads i).pc ≡ idle))
      → (after n es v).freed ≡ 1
  box_dropped_with_last_handle gone = elim (inv.settled gone_all) [
    | inl done ↦ done
    | inr (i, lt, at) ↦ absurd (cc ((gone i lt).2))
  ]
    where
      gone_all : (after n es v).alloc_ref_count.value ≡ 0
      gone_all = omega (
        arith,
        inv.count.alloc_exact,
        sum-eq-zero alloc_owed n (after n es v).threads (λ i lt. ground (arith, gone i lt)),
      )

  -- While a thread has the mutable reference of `get_mut`, it has one `Arc`, and no other thread
  -- has a handle of either kind.
  pub weak_get_mut_exclusive :
      (i j : ℕ)
      → i < n
      → j < n
      → i ≢ j
      → ((after n es v).threads i).pc ≡ exclusive
      → (((after n es v).threads i).arcs ≡ 1)
        × (((after n es v).threads j).arcs ≡ 0)
        × (((after n es v).threads j).weaks ≡ 0)
  weak_get_mut_exclusive i j lt l apart at = (
    (inv.alone i lt at).1,
    ground (arith, inv.alone i lt at, two_owed inv.count i j lt l apart),
    ground (arith, inv.alone i lt at, two_owed inv.count i j lt l apart),
  )

  -- The assertion `n < usize::MAX` of `upgrade` never fails.
  pub assertion_holds : (i : ℕ) → i < n → ((after n es v).threads i).pc ≢ panicked
  assertion_holds i lt = inv.sound i lt
