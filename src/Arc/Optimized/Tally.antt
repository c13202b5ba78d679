-- ===== src/Arc/Optimized/Tally.antt =====
-- The counts of an `Arc` with an implicit weak pointer, for the examples/06-03_optimization.rs: each
-- is exact, but while `get_mut` has `alloc_ref_count` locked.
use rust_atomics_and_locks.Base.{
  ℕ, zero, suc, ◌+◌, ◌-◌, ◌≤◌, ◌<◌, ◌≡◌, ◌≢◌, arith, put, sum, sum-put, weigh-le-sum, pair-le-sum,
  sum-le, sum-first, ◌==◌, if◌then◌else◌,
}
use rust_atomics_and_locks.Arc.Word.{modulus}
use rust_atomics_and_locks.Arc.Optimized.{
  last_arc, dropping, locking, tested, Pc, Thread, ArcData, start,
}

abbrev pub arcs_of : Thread → ℕ
arcs_of t = t.arcs

-- A thread that drops the last `Arc` has the implicit weak pointer.
abbrev pub implicit : Pc → ℕ
implicit last_arc = 1
implicit dropping = 1
implicit _ = 0

abbrev pub weaks_of : Thread → ℕ
weaks_of t = t.weaks + implicit t.pc

-- Has the thread locked `alloc_ref_count`?
abbrev pub locks : Pc → ℕ
locks locking = 1
locks (tested u) = 1
locks _ = 0

abbrev pub locks_of : Thread → ℕ
locks_of t = locks t.pc

-- Otherwise all `Arc`s together have it.
abbrev pub shared : ℕ → ℕ
shared strong = if strong == 0 then 0 else 1

-- The weak pointers, with the implicit one.
abbrev pub weak_count : ℕ → ℕ → (ℕ → Thread) → ℕ
weak_count n strong f = sum weaks_of n f + shared strong

-- Of the two counts and the threads, after at most `k` steps.
pub record Tally (n k alloc strong : ℕ) (f : ℕ → Thread) : Type 0 where
  pub strong_exact : strong ≡ sum arcs_of n f
  pub lock_arcs : (i : ℕ) → i < n → locks_of (f i) ≤ (f i).arcs
  pub one_lock : sum locks_of n f ≤ 1
  pub exact : sum locks_of n f ≡ 0 → alloc ≡ weak_count n strong f
  pub locked : sum locks_of n f ≡ 1 → (alloc ≡ modulus - 1) × (weak_count n strong f ≡ 1)
  pub small : weak_count n strong f ≤ k
  pub strong_small : strong ≤ k

abbrev pub Counted : {T : Type 0} → ℕ → ℕ → ArcData T → Type 0
Counted n k s = Tally n k s.alloc_ref_count.value s.data_ref_count.value s.threads

pub start-Counted : {T : Type 0} (n : ℕ) (v : T) → 0 < n → Counted n 1 (start v)
unfolding start
start-Counted zero v h = elim h [ ]
start-Counted (suc n) v h = record {
  strong_exact = omega (arith, sum-first arcs_of n (start v).threads (λ i. ground arith));
  lock_arcs = λ i l. ground arith;
  one_lock = omega (arith, sum-first locks_of n (start v).threads (λ i. ground arith));
  exact = λ h. omega (arith, sum-first weaks_of n (start v).threads (λ i. ground arith));
  locked = λ h. absurd (omega (arith, sum-first locks_of n (start v).threads (λ i. ground arith)));
  small = omega (arith, sum-first weaks_of n (start v).threads (λ i. ground arith));
  strong_small = omega arith;
}

module _ {n k alloc strong : ℕ} {f : ℕ → Thread} (c : Tally n k alloc strong f) (i : ℕ)
    (lt : i < n) where
  open c use {strong_exact, lock_arcs, one_lock, exact, locked, small, strong_small}

  pub locks-le-strong : sum locks_of n f ≤ strong
  locks-le-strong = omega (arith, sum-le locks_of arcs_of n f lock_arcs)

  pub arcs-le : (f i).arcs ≤ strong
  arcs-le = omega (arith, weigh-le-sum arcs_of n i f lt)

  pub weaks-le : weaks_of (f i) ≤ sum weaks_of n f
  weaks-le = omega (arith, weigh-le-sum weaks_of n i f lt)

  pub locks-le : locks_of (f i) ≤ sum locks_of n f
  locks-le = omega (arith, weigh-le-sum locks_of n i f lt)

  pub two_arcs : (j : ℕ) → j < n → i ≢ j → (f i).arcs + (f j).arcs ≤ strong
  two_arcs j lj apart = omega (arith, pair-le-sum arcs_of n i j f lt lj apart)

  pub two_weaks : (j : ℕ) → j < n → i ≢ j → weaks_of (f i) + weaks_of (f j) ≤ sum weaks_of n f
  two_weaks j lj apart = omega (arith, pair-le-sum weaks_of n i j f lt lj apart)

  pub two_locks : (j : ℕ) → j < n → i ≢ j → locks_of (f i) + locks_of (f j) ≤ 1
  two_locks j lj apart = omega (arith, pair-le-sum locks_of n i j f lt lj apart)

  -- A step of one thread that changes neither count nor what the thread holds of them.
  pub still-Tally :
      (t : Thread)
      → t.arcs ≡ (f i).arcs
      → weaks_of t ≡ weaks_of (f i)
      → locks_of t ≡ locks_of (f i)
      → Tally n (suc k) alloc strong (put f i t)
  still-Tally t e e' e'' = record {
    strong_exact = omega (arith, sum-put arcs_of n i f t lt);
    lock_arcs = λ j l. ground (arith, lock_arcs j);
    one_lock = omega (arith, sum-put locks_of n i f t lt);
    exact = λ h.
        omega
          (arith, exact (omega (arith, sum-put locks_of n i f t lt)), sum-put weaks_of n i f t lt);
    locked = λ h.
        omega
          (arith, locked (omega (arith, sum-put locks_of n i f t lt)), sum-put weaks_of n i f t lt);
    small = omega (arith, sum-put weaks_of n i f t lt);
    strong_small = omega arith;
  }
