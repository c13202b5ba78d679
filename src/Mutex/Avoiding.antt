-- ===== src/Mutex/Avoiding.antt =====
-- examples/09-01-01_avoiding-system-call.rs: `state` is 0 if unlocked, 1 if locked and nobody waits,
-- 2 if locked and somebody waits.
pub mod Uncontended
use rust_atomics_and_locks.Base.{
  ℕ, ◌+◌, ◌≤◌, ◌<◌, ◌≡◌, ◌≢◌, ◌↔◌, refl, Bool, true, false, not, ◌&&◌, List, [], ◌∷◌, arith, ◌==◌,
  ltb, if◌then◌else◌,
}
use rust_atomics_and_locks.Memory.{
  acquire, release, relaxed, Atomic, Local, load, swap, compare_exchange,
}
use rust_atomics_and_locks.Mutex.{
  MutexOps, IsMutex, Stage, entering, spinning, retrying, contended, parking, locked,
}

-- One exchange from 0 to 1, and then `while self.state.swap(2, Acquire) != 0 { wait(...) }`.
lock : Stage → Atomic ℕ → Local → Stage × Atomic ℕ × Local
lock entering state l =
    let r = compare_exchange acquire relaxed (λ v. v == 0) 1 state l in
    (if r.0 then locked else contended, r.2, r.3)
lock _ state l = let r = swap acquire 2 state l in (if r.0 == 0 then locked else parking, r.1, r.2)

-- `if self.mutex.state.swap(0, Release) == 2 { wake_one(&self.mutex.state); }`
drop : Atomic ℕ → Local → Bool × Atomic ℕ × Local
drop state l = let r = swap release 0 state l in (r.0 == 2, r.1, r.2)

unfoldable pub mutex_ops : MutexOps
unfolding lock drop
mutex_ops = record { mark = 2; advance = lock; unlock = drop }

taken :
    (s : Stage) (a : Atomic ℕ) (l : Local)
    → a.value ≤ 2
    → (lock s a l).0 ≡ locked
    → (a.value ≡ 0) × ((lock s a l).1.value ≢ 0)
unfolding lock
taken entering a l b h = ground arith
taken _ a l b h = ground arith

acquired :
    (s : Stage) (a : Atomic ℕ) (l : Local) (j : ℕ)
    → (lock s a l).0 ≡ locked
    → a.released j ≤ (lock s a l).2.seen j
unfolding lock
acquired entering a l j h = ground arith
acquired _ a l j h = ground arith

refused :
    (s : Stage) (a : Atomic ℕ) (l : Local)
    → (lock s a l).0 ≢ locked
    → ((lock s a l).1.value ≡ 0) ↔ (a.value ≡ 0)
unfolding lock
refused entering a l h = ground arith
refused _ a l h = ground arith

unchanged :
    (s : Stage) (a : Atomic ℕ) (l : Local) (j : ℕ)
    → (lock s a l).0 ≢ locked
    → a.value ≡ 0
    → a.released j ≤ (lock s a l).1.released j
unfolding lock
unchanged entering a l j h e = ground arith
unchanged _ a l j h e = ground arith

ranged : (s : Stage) (a : Atomic ℕ) (l : Local) → a.value ≤ 2 → (lock s a l).1.value ≤ 2
unfolding lock
ranged entering a l h = ground arith
ranged _ a l h = ground arith

keeps_mark : (s : Stage) (a : Atomic ℕ) (l : Local) → a.value ≡ 2 → (lock s a l).1.value ≡ 2
unfolding lock
keeps_mark entering a l h = ground arith
keeps_mark _ a l h = ground arith

pub mutex_ops-IsMutex : IsMutex mutex_ops
unfolding mutex_ops
mutex_ops-IsMutex = record {
  marked = λ h. cc;
  taken = taken;
  acquired = acquired;
  refused = refused;
  unchanged = unchanged;
  marks = λ a l. refl;
  keeps_mark = keeps_mark;
  ranged = ranged;
  freed = λ a l. refl;
  published = λ a l j. omega arith;
  wakes = λ a l h. ground arith;
}
