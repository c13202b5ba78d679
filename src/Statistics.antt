-- ===== src/Statistics.antt =====
-- examples/02-02-02_statistics.rs: four workers that take times, and a main thread that prints the
-- statistics of them until all 100 items are done.
--
-- `Inaccurate` has the three atomics of `inaccurate_statistics`, `Accurate` the mutex of
-- `accurate_statistics`. A worker's measured time is part of the action.
pub mod Inaccurate
pub mod Accurate
mod Summary
mod Tests
use rust_atomics_and_locks.Base.{ℕ, ◌+◌, ◌*◌, ◌%◌, ◌/◌, ◌^◌, ◌==◌, if◌then◌else◌}

-- `for t in 0..4` and `for i in 0..25`
abbrev pub workers : ℕ
workers = 4

abbrev pub items : ℕ
items = 25

-- `n == 100`
abbrev pub all_items : ℕ
all_items = 100

-- A `usize` and a `u64` have 64 bits, and a `u32` 32.
abbrev pub modulus : ℕ
modulus = 2 ^ 64

-- What `fn print_statistics` prints: no item yet, or their number, the average and the peak,
-- which are `Duration`s, in nanoseconds.
pub data Line : Type 0 where
  nothing_done : Line
  done : (num_done average peak : ℕ) → Line

-- Both times are taken in microseconds. `total_time / num_done as u32` divides by the number's low 32
-- bits, and keeps the nanoseconds.
unfoldable pub print_statistics : ℕ → ℕ → ℕ → Line
print_statistics num_done total_time max_time =
    if num_done == 0
    then nothing_done
    else done num_done (total_time * 1000 / (num_done % 2 ^ 32)) (max_time * 1000)
