-- ===== src/Arc/Basic/Counting.antt =====
-- The count is exact: it is the number of handles, with those of the threads that are about to
-- abort, and it never wraps.
use rust_atomics_and_locks.Base.{
  ℕ, zero, suc, ◌+◌, ◌≤◌, ◌<◌, ◌≡◌, ◌≢◌, arith, put, sum, sum-put, sum-le-add, weigh-le-sum,
  pair-le-sum, sum-first,
}
use rust_atomics_and_locks.Arc.Word.{modulus, max_half}
use rust_atomics_and_locks.Arc.Basic.{
  Pc, idle, aborting, last, exclusive, Thread, Arc, start, clone_handle, drop_handle, hand_over,
  cloned, dropped, given, received,
}

abbrev pub handles_of : Thread → ℕ
handles_of t = t.handles

abbrev pub about_to_abort : Pc → ℕ
about_to_abort aborting = 1
about_to_abort _ = 0

-- What a thread contributes to the count.
abbrev pub owed : Thread → ℕ
owed t = t.handles + about_to_abort t.pc

about_to_abort-le : (p : Pc) → about_to_abort p ≤ 1
about_to_abort-le aborting = omega arith
about_to_abort-le idle = omega arith
about_to_abort-le last = omega arith
about_to_abort-le exclusive = omega arith

sum-le : (n : ℕ) (f : ℕ → Thread) → sum handles_of n f ≤ sum owed n f
unfolding sum
sum-le zero f = omega arith
sum-le (suc n) f = omega (arith, sum-le n f)

-- Of a count and the threads that it counts the handles of.
pub record Counted (n value : ℕ) (threads : ℕ → Thread) : Type 0 where
  pub exact : value ≡ sum owed n threads
  pub bounded : sum handles_of n threads ≤ max_half + 1

module _ {T : Type 0} {n : ℕ} (s : Arc T) (c : Counted n s.ref_count.value s.threads) where
  open c use {exact, bounded}

  -- The count stays below `usize::MAX`, so neither operation on it wraps.
  pub value_bounded : n + 1 < max_half → s.ref_count.value + 1 < modulus
  value_bounded few =
      omega
        (arith, sum-le-add owed handles_of n s.threads (λ t. omega (arith, about_to_abort-le t.pc)))

  handles-sum-le : sum handles_of n s.threads ≤ s.ref_count.value
  handles-sum-le = omega (arith, sum-le n s.threads)

  pub handles-le-value : (i : ℕ) → i < n → owed (s.threads i) ≤ s.ref_count.value
  handles-le-value i lt = omega (arith, weigh-le-sum owed n i s.threads lt)

  pub two_handles :
      (i j : ℕ)
      → i < n
      → j < n
      → i ≢ j
      → owed (s.threads i) + owed (s.threads j) ≤ s.ref_count.value
  two_handles i j li lj apart = omega (arith, pair-le-sum owed n i j s.threads li lj apart)

  pub clone-Counted :
      n + 1 < max_half
      → (i : ℕ) → i < n
      → (s.threads i).pc ≡ idle
      → Counted n (clone_handle i s).ref_count.value (clone_handle i s).threads
  unfolding clone_handle
  clone-Counted few i lt at = record {
    exact =
        ground (arith, value_bounded few, sum-put owed n i s.threads (cloned s (s.threads i)) lt);
    bounded =
        ground
          (arith, handles-sum-le, sum-put handles_of n i s.threads (cloned s (s.threads i)) lt);
  }

  pub drop-Counted :
      n + 1 < max_half
      → (i : ℕ) → i < n
      → (s.threads i).pc ≡ idle
      → 0 < (s.threads i).handles
      → Counted n (drop_handle i s).ref_count.value (drop_handle i s).threads
  unfolding drop_handle
  drop-Counted few i lt at some = record {
    exact = ground (
      arith,
      value_bounded few,
      handles-le-value i lt,
      sum-put owed n i s.threads (dropped s (s.threads i)) lt,
    );
    bounded = ground (arith, sum-put handles_of n i s.threads (dropped s (s.threads i)) lt);
  }

  -- A step that neither changes the count nor any number of handles.
  pub still-Counted :
      (i : ℕ) (t : Thread)
      → i < n
      → t.handles ≡ (s.threads i).handles
      → about_to_abort t.pc ≡ about_to_abort (s.threads i).pc
      → Counted n s.ref_count.value (put s.threads i t)
  still-Counted i t lt e e' = record {
    exact = omega (arith, sum-put owed n i s.threads t lt);
    bounded = omega (arith, sum-put handles_of n i s.threads t lt);
  }

  pub hand_over-Counted :
      (i j : ℕ)
      → i < n
      → j < n
      → 0 < (s.threads i).handles
      → Counted n (hand_over i j s).ref_count.value (hand_over i j s).threads
  unfolding hand_over
  hand_over-Counted i j li lj some = record {
    exact = omega (arith, sum-put owed n i s.threads t li, sum-put owed n j left t' lj);
    bounded =
        omega (arith, sum-put handles_of n i s.threads t li, sum-put handles_of n j left t' lj);
  }
    where
      t : Thread
      t = given (s.threads i)

      left : ℕ → Thread
      left = put s.threads i t

      t' : Thread
      t' = received (s.threads i).local.seen (left j)

pub start-Counted :
    {T : Type 0} (n : ℕ) (v : T) → 0 < n → Counted n (start v).ref_count.value (start v).threads
unfolding start
start-Counted zero v h = elim h [ ]
start-Counted (suc n) v h = record {
  exact = omega (arith, sum-first owed n (start v).threads (λ i. ground arith));
  bounded = omega (arith, sum-first handles_of n (start v).threads (λ i. ground arith));
}
