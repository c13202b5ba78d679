-- ===== src/SpinLock/Once.antt =====
-- examples/03-05-01_lock-example.rs: one attempt, and the data is left alone unless it `is_ok()`.
use rust_atomics_and_locks.Base.{Bool, true, false, not, refl, arith}
use rust_atomics_and_locks.Memory.{
  acquire, release, relaxed, Atomic, Local, store, compare_exchange,
}
use rust_atomics_and_locks.Lock.{LockOps, IsLock}

lock : Bool → Atomic Bool → Local → Bool × Atomic Bool × Local
lock _ locked l = let r = compare_exchange acquire relaxed not true locked l in (r.0, r.2, r.3)

unlock : Atomic Bool → Local → Atomic Bool
unlock locked l = store release false l

unfoldable pub lock_ops : LockOps
unfolding lock unlock
lock_ops = record { attempt = lock; unlock = unlock }

pub lock_ops-IsLock : IsLock lock_ops
unfolding lock_ops
lock_ops-IsLock = record {
  taken = λ b a l h. ground arith;
  acquired = λ b a l j h. ground arith;
  refused = λ b a l h. ground arith;
  unchanged = λ b a l j h e. ground arith;
  free_taken = λ a l h. ground arith;
  freed = λ a l. refl;
  published = λ a l j. omega arith;
}
