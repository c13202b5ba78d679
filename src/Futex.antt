-- ===== src/Futex.antt =====
-- What the locks use of the crate `atomic_wait`, which examples/08-03-01_futex.rs builds from the
-- system call. Neither the crate nor the kernel is in the repository, so they are a parameter: a
-- queue of the threads that sleep on one atomic, with the documented behaviour.
pub mod Fifo
use rust_atomics_and_locks.Base.{ℕ, ◌≡◌, Bool, true, false, ◌==◌, if◌then◌else◌}

pub record Futex : Type 1 where
  pub Queue : Type 0
  pub nobody : Queue
  pub sleeps : ℕ → Queue → Bool
  -- The thread goes to sleep; `wait` does this only while the atomic has the expected value.
  pub suspend : ℕ → Queue → Queue
  -- The thread returns from `wait` though nobody woke it.
  pub leave : ℕ → Queue → Queue
  pub wake_one : Queue → Queue

-- `wait` suspends the caller, `leave` the opposite, and neither touches another thread.
-- `wake_one` puts nobody to sleep, and wakes some thread if there is one that sleeps.
pub record IsFutex (f : Futex) : Type 0 where
  pub sleeps-nobody : (j : ℕ) → f.sleeps j f.nobody ≡ false
  pub sleeps-suspend :
      (i j : ℕ) (q : f.Queue) → f.sleeps j (f.suspend i q) ≡ (if i == j then true else f.sleeps j q)
  pub sleeps-leave :
      (i j : ℕ) (q : f.Queue) → f.sleeps j (f.leave i q) ≡ (if i == j then false else f.sleeps j q)
  pub wake_one_only : (j : ℕ) (q : f.Queue) → f.sleeps j (f.wake_one q) ≡ true → f.sleeps j q ≡ true
  pub wake_one_wakes :
      (j : ℕ) (q : f.Queue)
      → f.sleeps j q ≡ true
      → (i : ℕ) × (f.sleeps i q ≡ true) × (f.sleeps i (f.wake_one q) ≡ false)
