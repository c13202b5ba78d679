-- ===== src/Mutex/Basic.antt =====
-- examples/09-01_mutex.rs: `state` is 0 if unlocked and 1 if locked.
use rust_atomics_and_locks.Base.{
  ℕ, ◌≤◌, ◌≡◌, ◌≢◌, ◌↔◌, refl, Bool, true, arith, ◌==◌, if◌then◌else◌,
}
use rust_atomics_and_locks.Memory.{acquire, release, Atomic, Local, swap}
use rust_atomics_and_locks.Mutex.{MutexOps, IsMutex, Stage, parking, locked}

-- `while self.state.swap(1, Acquire) == 1 { wait(&self.state, 1); }`: all stages are its head.
lock : Stage → Atomic ℕ → Local → Stage × Atomic ℕ × Local
lock _ state l = let r = swap acquire 1 state l in (if r.0 == 1 then parking else locked, r.1, r.2)

-- `self.mutex.state.swap(0, Release); wake_one(&self.mutex.state);`
drop : Atomic ℕ → Local → Bool × Atomic ℕ × Local
drop state l = let r = swap release 0 state l in (true, r.1, r.2)

unfoldable pub mutex_ops : MutexOps
unfolding lock drop
mutex_ops = record { mark = 1; advance = lock; unlock = drop }

taken :
    (s : Stage) (a : Atomic ℕ) (l : Local)
    → a.value ≤ 1
    → (lock s a l).0 ≡ locked
    → (a.value ≡ 0) × ((lock s a l).1.value ≢ 0)
unfolding lock
taken s a l b h = ground arith

acquired :
    (s : Stage) (a : Atomic ℕ) (l : Local) (j : ℕ)
    → (lock s a l).0 ≡ locked
    → a.released j ≤ (lock s a l).2.seen j
unfolding lock
acquired s a l j h = ground arith

refused :
    (s : Stage) (a : Atomic ℕ) (l : Local)
    → (lock s a l).0 ≢ locked
    → ((lock s a l).1.value ≡ 0) ↔ (a.value ≡ 0)
unfolding lock
refused s a l h = ground arith

unchanged :
    (s : Stage) (a : Atomic ℕ) (l : Local) (j : ℕ)
    → (lock s a l).0 ≢ locked
    → a.value ≡ 0
    → a.released j ≤ (lock s a l).1.released j
unfolding lock
unchanged s a l j h e = ground arith

ranged : (s : Stage) (a : Atomic ℕ) (l : Local) → a.value ≤ 1 → (lock s a l).1.value ≤ 1
unfolding lock
ranged s a l h = ground arith

keeps_mark : (s : Stage) (a : Atomic ℕ) (l : Local) → a.value ≡ 1 → (lock s a l).1.value ≡ 1
unfolding lock
keeps_mark s a l h = ground arith

pub mutex_ops-IsMutex : IsMutex mutex_ops
unfolding mutex_ops
mutex_ops-IsMutex = record {
  marked = λ h. cc;
  taken = taken;
  acquired = acquired;
  refused = refused;
  unchanged = unchanged;
  marks = λ a l. refl;
  keeps_mark = keeps_mark;
  ranged = ranged;
  freed = λ a l. refl;
  published = λ a l j. omega arith;
  wakes = λ a l h. ground arith;
}
