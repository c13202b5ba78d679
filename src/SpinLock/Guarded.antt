-- ===== src/SpinLock/Guarded.antt =====
-- examples/04-03_safe-interface-with-lock-guard.rs: the loop is `while locked.swap(true, Acquire)`,
-- and the guard's `drop` unlocks.
use rust_atomics_and_locks.Base.{Bool, true, false, not, refl, arith}
use rust_atomics_and_locks.Memory.{acquire, release, Atomic, Local, store, swap}
use rust_atomics_and_locks.Lock.{LockOps, IsLock}

lock : Bool → Atomic Bool → Local → Bool × Atomic Bool × Local
lock _ locked l = let r = swap acquire true locked l in (not r.0, r.1, r.2)

drop : Atomic Bool → Local → Atomic Bool
drop locked l = store release false l

unfoldable pub lock_ops : LockOps
unfolding lock drop
lock_ops = record { attempt = lock; unlock = drop }

pub lock_ops-IsLock : IsLock lock_ops
unfolding lock_ops
lock_ops-IsLock = record {
  taken = λ b a l h. ground arith;
  acquired = λ b a l j h. ground arith;
  refused = λ b a l h. ground arith;
  unchanged = λ b a l j h e. ground arith;
  free_taken = λ a l h. ground arith;
  freed = λ a l. refl;
  published = λ a l j. omega arith;
}
