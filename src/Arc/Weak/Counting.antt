-- ===== src/Arc/Weak/Counting.antt =====
-- Both counts are exact: each is a sum of what the threads hold and are in the middle of, and
-- neither wraps.
use rust_atomics_and_locks.Base.{
  ℕ, zero, suc, ◌+◌, ◌*◌, ◌≤◌, ◌<◌, ◌≡◌, ◌≢◌, arith, put, sum, sum-put, sum-le-add, weigh-le-sum,
  pair-le-sum, sum-first,
}
use rust_atomics_and_locks.Arc.Word.{modulus, max_half}
use rust_atomics_and_locks.Arc.Weak.{
  Pc, cloning, upgraded, aborting_weak, aborting_arc, last_arc, dropping, Thread, start,
}

-- What a call under way contributes to `alloc_ref_count`, without the aborting calls and with them,
-- and to `data_ref_count`.
abbrev pub kept_pc : Pc → ℕ
kept_pc cloning = 1
kept_pc last_arc = 1
kept_pc dropping = 1
kept_pc _ = 0

abbrev pub abort_pc : Pc → ℕ
abort_pc aborting_weak = 1
abort_pc aborting_arc = 1
abort_pc _ = 0

abbrev pub data_pc : Pc → ℕ
data_pc upgraded = 1
data_pc aborting_arc = 1
data_pc _ = 0

abbrev pub kept : Thread → ℕ
kept t = t.arcs + t.weaks + kept_pc t.pc

abbrev pub alloc_owed : Thread → ℕ
alloc_owed t = t.arcs + t.weaks + kept_pc t.pc + abort_pc t.pc

abbrev pub data_owed : Thread → ℕ
data_owed t = t.arcs + data_pc t.pc

abort_pc-le : (p : Pc) → abort_pc p ≤ 1
abort_pc-le p = ground arith

data_pc-le : (p : Pc) → data_pc p ≤ 1
data_pc-le p = ground arith

sum-le : (n : ℕ) (f : ℕ → Thread) → sum kept n f ≤ sum alloc_owed n f
unfolding sum
sum-le zero f = omega arith
sum-le (suc n) f = omega (arith, sum-le n f)

-- Of the two counts and the threads.
pub record Counted (n alloc strong : ℕ) (threads : ℕ → Thread) : Type 0 where
  pub alloc_exact : alloc ≡ sum alloc_owed n threads
  pub data_exact : strong ≡ sum data_owed n threads
  pub bounded : sum kept n threads ≤ max_half + 1

module _ {n alloc strong : ℕ} {f : ℕ → Thread} (c : Counted n alloc strong f) where
  open c use {alloc_exact, data_exact, bounded}

  pub alloc_bounded : 2 * n + 2 < max_half → alloc + 1 < modulus
  alloc_bounded few =
      omega (arith, sum-le-add alloc_owed kept n f (λ t. omega (arith, abort_pc-le t.pc)))

  pub data_bounded : 2 * n + 2 < max_half → strong + 1 < modulus
  data_bounded few = omega (
    arith,
    sum-le-add alloc_owed kept n f (λ t. omega (arith, abort_pc-le t.pc)),
    sum-le-add data_owed alloc_owed n f (λ t. omega (arith, data_pc-le t.pc)),
  )

  pub kept-le : sum kept n f ≤ alloc
  kept-le = omega (arith, sum-le n f)

  pub alloc-le : (i : ℕ) → i < n → alloc_owed (f i) ≤ alloc
  alloc-le i lt = omega (arith, weigh-le-sum alloc_owed n i f lt)

  pub data-le : (i : ℕ) → i < n → data_owed (f i) ≤ strong
  data-le i lt = omega (arith, weigh-le-sum data_owed n i f lt)

  pub two_owed : (i j : ℕ) → i < n → j < n → i ≢ j → alloc_owed (f i) + alloc_owed (f j) ≤ alloc
  two_owed i j li lj apart = omega (arith, pair-le-sum alloc_owed n i j f li lj apart)

  -- A step of one thread.
  pub moved-Counted :
      (i : ℕ) (t : Thread) (alloc' strong' : ℕ)
      → i < n
      → alloc' + alloc_owed (f i) ≡ alloc + alloc_owed t
      → strong' + data_owed (f i) ≡ strong + data_owed t
      → sum kept n f + kept t ≤ max_half + 1 + kept (f i)
      → Counted n alloc' strong' (put f i t)
  moved-Counted i t alloc' strong' lt e e' b = record {
    alloc_exact = omega (arith, sum-put alloc_owed n i f t lt);
    data_exact = omega (arith, sum-put data_owed n i f t lt);
    bounded = omega (arith, sum-put kept n i f t lt);
  }

pub start-Counted :
    {T : Type 0} (n : ℕ) (v : T)
    → 0 < n
    → Counted n (start v).alloc_ref_count.value (start v).data_ref_count.value (start v).threads
unfolding start
start-Counted zero v h = elim h [ ]
start-Counted (suc n) v h = record {
  alloc_exact = omega (arith, sum-first alloc_owed n (start v).threads (λ i. ground arith));
  data_exact = omega (arith, sum-first data_owed n (start v).threads (λ i. ground arith));
  bounded = omega (arith, sum-first kept n (start v).threads (λ i. ground arith));
}
