-- ===== src/Mutex/Spinning.antt =====
-- examples/09-01-02_further-improvements.rs, which 09-01-03_benchmark.rs repeats: `state` is 0 if
-- unlocked, 1 if locked and nobody waits, 2 if locked and somebody waits, and a thread that finds
-- 1 spins for a while before it waits.
use rust_atomics_and_locks.Base.{
  ℕ, length, ◌+◌, ◌≤◌, ◌≡◌, ◌≢◌, ◌↔◌, refl, Bool, ◌&&◌, List, [], ◌∷◌, arith, ◌==◌, ltb,
  if◌then◌else◌,
}
use rust_atomics_and_locks.Memory.{
  acquire, release, relaxed, Atomic, Local, load, swap, compare_exchange,
}
use rust_atomics_and_locks.Mutex.{
  MutexOps, IsMutex, Stage, entering, spinning, retrying, contended, parking, locked,
}

-- `lock`, and `lock_contented` from its spin loop on: at most 100 rounds while the state is 1, one
-- exchange from 0 to 1, and then `while state.swap(2, Acquire) != 0 { wait(state, 2); }`.
lock : Stage → Atomic ℕ → Local → Stage × Atomic ℕ × Local
lock entering state l =
    let r = compare_exchange acquire relaxed (λ v. v == 0) 1 state l in
    (if r.0 then locked else spinning 0, r.2, r.3)
lock (spinning k) state l =
    let r = load relaxed state l in
    (if r.0 == 1 && ltb k 100 then spinning (k + 1) else retrying, state, r.1)
lock retrying state l =
    let r = compare_exchange acquire relaxed (λ v. v == 0) 1 state l in
    (if r.0 then locked else contended, r.2, r.3)
lock _ state l = let r = swap acquire 2 state l in (if r.0 == 0 then locked else parking, r.1, r.2)

-- `if self.mutex.state.swap(0, Release) == 2 { wake_one(&self.mutex.state); }`
drop : Atomic ℕ → Local → Bool × Atomic ℕ × Local
drop state l = let r = swap release 0 state l in (r.0 == 2, r.1, r.2)

unfoldable pub mutex_ops : MutexOps
unfolding lock drop
mutex_ops = record { mark = 2; advance = lock; unlock = drop }

taken :
    (s : Stage) (a : Atomic ℕ) (l : Local)
    → a.value ≤ 2
    → (lock s a l).0 ≡ locked
    → (a.value ≡ 0) × ((lock s a l).1.value ≢ 0)
unfolding lock
taken entering a l b h = ground arith
taken (spinning k) a l b h = ground arith
taken retrying a l b h = ground arith
taken _ a l b h = ground arith

acquired :
    (s : Stage) (a : Atomic ℕ) (l : Local) (j : ℕ)
    → (lock s a l).0 ≡ locked
    → a.released j ≤ (lock s a l).2.seen j
unfolding lock
acquired entering a l j h = ground arith
acquired (spinning k) a l j h = ground arith
acquired retrying a l j h = ground arith
acquired _ a l j h = ground arith

refused :
    (s : Stage) (a : Atomic ℕ) (l : Local)
    → (lock s a l).0 ≢ locked
    → ((lock s a l).1.value ≡ 0) ↔ (a.value ≡ 0)
unfolding lock
refused entering a l h = ground arith
refused (spinning k) a l h = ground arith
refused retrying a l h = ground arith
refused _ a l h = ground arith

unchanged :
    (s : Stage) (a : Atomic ℕ) (l : Local) (j : ℕ)
    → (lock s a l).0 ≢ locked
    → a.value ≡ 0
    → a.released j ≤ (lock s a l).1.released j
unfolding lock
unchanged entering a l j h e = ground arith
unchanged (spinning k) a l j h e = ground arith
unchanged retrying a l j h e = ground arith
unchanged _ a l j h e = ground arith

ranged : (s : Stage) (a : Atomic ℕ) (l : Local) → a.value ≤ 2 → (lock s a l).1.value ≤ 2
unfolding lock
ranged entering a l h = ground arith
ranged (spinning k) a l h = ground arith
ranged retrying a l h = ground arith
ranged _ a l h = ground arith

keeps_mark : (s : Stage) (a : Atomic ℕ) (l : Local) → a.value ≡ 2 → (lock s a l).1.value ≡ 2
unfolding lock
keeps_mark entering a l h = ground arith
keeps_mark (spinning k) a l h = ground arith
keeps_mark retrying a l h = ground arith
keeps_mark _ a l h = ground arith

pub mutex_ops-IsMutex : IsMutex mutex_ops
unfolding mutex_ops
mutex_ops-IsMutex = record {
  marked = λ h. cc;
  taken = taken;
  acquired = acquired;
  refused = refused;
  unchanged = unchanged;
  marks = λ a l. refl;
  keeps_mark = keeps_mark;
  ranged = ranged;
  freed = λ a l. refl;
  published = λ a l j. omega arith;
  wakes = λ a l h. ground arith;
}

-- The spin loop over the atomics that its loads meet, until it ends or they do.
pub spin_loop : ℕ → List (Atomic ℕ) → Local → Stage
spin_loop k [] l = spinning k
spin_loop k (a ∷ seen) l = elim (lock (spinning k) a l).0 [
  | spinning k' ↦ spin_loop k' seen (lock (spinning k) a l).2
  | st ↦ st
]

spin_loop_from :
    (k : ℕ) (seen : List (Atomic ℕ)) (l : Local)
    → k ≤ 100
    → 101 ≤ k + length seen
    → spin_loop k seen l ≡ retrying
unfolding spin_loop lock
spin_loop_from k [] l h h' = absurd (omega arith)
spin_loop_from k (a ∷ seen) l h h' =
    ground (arith, spin_loop_from (k + 1) seen (lock (spinning k) a l).2)

-- The spin loop ends: whatever 101 loads find, a thread has left the loop after at most these.
pub spin_loop_ends :
    (seen : List (Atomic ℕ)) (l : Local) → 101 ≤ length seen → spin_loop 0 seen l ≡ retrying
spin_loop_ends seen l h = spin_loop_from 0 seen l (omega arith) (omega arith)
