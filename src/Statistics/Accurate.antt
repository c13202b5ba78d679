-- ===== src/Statistics/Accurate.antt =====
-- `fn accurate_statistics` of examples/02-02-02_statistics.rs. What a thread does while it holds the
-- mutex is one step, since `std::sync::Mutex` excludes the others.
pub mod Safety
use rust_atomics_and_locks.Base.{
  ℕ, ◌+◌, ◌%◌, Bool, ◌&&◌, List, [], ◌∷◌, ◌==◌, ltb, max, if◌then◌else◌, put, run,
}
use rust_atomics_and_locks.Statistics.{workers, items, all_items, modulus, Line, print_statistics}

pub record Statistics : Type 0 where
  pub num_done : ℕ
  pub total_time : ℕ
  pub max_time : ℕ

-- `Statistics::default()`
abbrev pub default : Statistics
default = record { num_done = 0; total_time = 0; max_time = 0 }

-- A worker between two items, or with the time that it measured.
pub data Stage : Type 0 where
  processing : Stage
  measured : (time_taken : ℕ) → Stage

-- `item` is how many of its items the worker has recorded.
pub record Worker : Type 0 where
  pub item : ℕ
  pub stage : Stage

-- The main thread: at the head of its loop; past `drop(guard)` with what it read; past the loop.
pub data Main : Type 0 where
  watching finished : Main
  looked : (read : Statistics) → Main

-- `recorded` has the times that were recorded, the newest first, and is not in the source.
pub record State : Type 0 where
  pub statistics : Statistics
  pub threads : ℕ → Worker
  pub main : Main
  pub printed : List Line
  pub recorded : List ℕ

pub data Action : Type 0 where
  measure : (time_taken : ℕ) → Action
  record_time look decide : Action

unfoldable pub start : State
start = record {
  statistics = default;
  threads = λ i. record { item = 0; stage = processing };
  main = watching;
  printed = [];
  recorded = [];
}

-- `guard.num_done += 1; guard.total_time += time_taken; guard.max_time = ...`. An overflow wraps, as in
-- a release build; that a debug build panics instead is not modelled.
abbrev pub updated : ℕ → Statistics → Statistics
updated t g = record {
  num_done = (g.num_done + 1) % modulus;
  total_time = (g.total_time + t) % modulus;
  max_time = max g.max_time t;
}

-- `process_item(...)`, and the time that it took
unfoldable pub process : ℕ → ℕ → State → State
process i t s = record s { threads = put s.threads i (record (s.threads i) { stage = measured t }) }

-- From `lock` to the end of the guard in a worker
unfoldable pub update : ℕ → ℕ → State → State
update i t s = record s {
  statistics = updated t s.statistics;
  threads = put s.threads i (record { item = (s.threads i).item + 1; stage = processing });
  recorded = t ∷ s.recorded;
}

-- From `lock` to `drop(guard)` in the main thread
unfoldable pub read_statistics : State → State
read_statistics s = record s { main = looked s.statistics }

-- `if n == 100 { break; } print_statistics(n, total_time, max_time)`
unfoldable pub decide_next : Statistics → State → State
decide_next g s = if g.num_done == all_items then record s { main = finished } else record s {
  main = watching;
  printed = print_statistics g.num_done g.total_time g.max_time ∷ s.printed;
}

-- A worker's loop ends after its items.
pub work_step : ℕ → Stage → Action → State → State
unfolding process update
work_step i processing (measure t) s = if ltb (s.threads i).item items then process i t s else s
work_step i (measured t) record_time s = update i t s
work_step _ _ _ s = s

pub main_step : Main → Action → State → State
unfolding read_statistics decide_next
main_step watching look s = read_statistics s
main_step (looked g) decide s = decide_next g s
main_step _ _ s = s

-- Worker `i` below 4, or the main thread.
unfoldable pub step : ℕ × Action → State → State
unfolding work_step main_step
step (i, e) s = if ltb i workers then work_step i (s.threads i).stage e s else main_step s.main e s

unfoldable pub after : List (ℕ × Action) → State
unfolding step start run
after es = run step es start
