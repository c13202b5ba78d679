-- ===== src/History/Adding.antt =====
-- examples/03-04_relaxed-ordering.rs and 03-04_relaxed-ordering2.rs: a thread loads `X` four times
-- while one thread, or two, add to it, every operation relaxed.
--
-- `fn b` is the same in both, and here; `OneThread` has `fn a` of the first, `TwoThreads` has `a1`
-- and `a2` of the second. How long the threads sleep is left to the schedule.
pub mod OneThread
pub mod TwoThreads
mod Ascending
mod Tests
use rust_atomics_and_locks.Base.{ℕ, ◌≤◌, ◌≡◌, Bool, true, false, ◌&&◌}
use rust_atomics_and_locks.Memory.{relaxed}
use rust_atomics_and_locks.History.{Store, Known, readable, load}

-- `static X: AtomicI32 = AtomicI32::new(0)`
abbrev pub counter : ℕ
counter = 0

-- `fn b`: what it has loaded, and at last the line that it prints.
pub data Reader : Type 0 where
  loading_a : Reader
  loading_b : (a : ℕ) → Reader
  loading_c : (a b : ℕ) → Reader
  loading_d : (a b c : ℕ) → Reader
  printed : (a b c d : ℕ) → Reader

unfoldable pub loaded : Reader → ℕ → Reader
loaded loading_a v = loading_b v
loaded (loading_b a) v = loading_c a v
loaded (loading_c a b) v = loading_d a b v
loaded (loading_d a b c) v = printed a b c v
loaded (printed a b c d) v = printed a b c d

pub is_printed : Reader → Bool
is_printed (printed a b c d) = true
is_printed _ = false

-- The next `X.load(Relaxed)`
abbrev pub load_counter : ℕ → Reader → Store → Known → Reader × Known
load_counter t r m k = let found = load relaxed counter t m k in (loaded r found.0, found.1)
