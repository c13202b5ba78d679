-- ===== src/SpinLock/Unsafe.antt =====
-- examples/04-02_unsafe-spin-lock.rs: the loop is `while locked.swap(true, Acquire)`.
use rust_atomics_and_locks.Base.{Bool, true, false, not, refl, arith}
use rust_atomics_and_locks.Memory.{acquire, release, Atomic, Local, store, swap}
use rust_atomics_and_locks.Lock.{LockOps, IsLock}

lock : Bool → Atomic Bool → Local → Bool × Atomic Bool × Local
lock _ locked l = let r = swap acquire true locked l in (not r.0, r.1, r.2)

unlock : Atomic Bool → Local → Atomic Bool
unlock locked l = store release false l

unfoldable pub lock_ops : LockOps
unfolding lock unlock
lock_ops = record { attempt = lock; unlock = unlock }

pub lock_ops-IsLock : IsLock lock_ops
unfolding lock_ops
lock_ops-IsLock = record {
  taken = λ b a l h. ground arith;
  acquired = λ b a l j h. ground arith;
  refused = λ b a l h. ground arith;
  unchanged = λ b a l j h e. ground arith;
  free_taken = λ a l h. ground arith;
  freed = λ a l. refl;
  published = λ a l j. omega arith;
}
