-- ===== src/Statistics/Inaccurate.antt =====
-- `fn inaccurate_statistics` of examples/02-02-02_statistics.rs, with loads that may return old
-- values.
mod Highest
pub mod Working
pub mod Safety
use rust_atomics_and_locks.Base.{
  ℕ, ◌+◌, ◌%◌, ◌&&◌, List, [], ◌∷◌, ◌==◌, ltb, max, if◌then◌else◌, put, run,
}
use rust_atomics_and_locks.Memory.{relaxed}
use rust_atomics_and_locks.History.{Store, Known, initial, unaware, readable, load, update_relaxed}
use rust_atomics_and_locks.Statistics.{workers, items, all_items, modulus, Line, print_statistics}

-- The three atomics
abbrev pub num_done : ℕ
num_done = 0

abbrev pub total_time : ℕ
total_time = 1

abbrev pub max_time : ℕ
max_time = 2

-- A worker between two items, or before one of its three updates.
pub data Stage : Type 0 where
  processing : Stage
  counting adding raising : (time_taken : ℕ) → Stage

pub record Worker : Type 0 where
  pub item : ℕ
  pub stage : Stage
  pub known : Known

-- The main thread: before each of its three loads; past them; past the loop.
pub data Main : Type 0 where
  loading_total finished : Main
  loading_max : (total : ℕ) → Main
  loading_num : (total largest : ℕ) → Main
  looked : (n total largest : ℕ) → Main

-- `measured` has the times that were measured, the newest first, and is not in the source.
pub record State : Type 0 where
  pub memory : Store
  pub threads : ℕ → Worker
  pub main : Main
  pub main_known : Known
  pub printed : List Line
  pub measured : List ℕ

pub data Action : Type 0 where
  measure : (time_taken : ℕ) → Action
  work decide : Action
  look : (t : ℕ) → Action

unfoldable pub start : State
start = record {
  memory = initial;
  threads = λ i. record { item = 0; stage = processing; known = unaware };
  main = loading_total;
  main_known = unaware;
  printed = [];
  measured = [];
}

-- `process_item(...)`, and the time that it took
unfoldable pub process : ℕ → ℕ → State → State
process i t s = record s {
  threads = put s.threads i (record (s.threads i) { stage = counting t });
  measured = t ∷ s.measured;
}

-- `num_done.fetch_add(1, Relaxed)`
unfoldable pub add_done : ℕ → ℕ → State → State
add_done i t s =
    let r = update_relaxed num_done (λ w. (w + 1) % modulus) s.memory (s.threads i).known in
    record s {
      memory = r.0;
      threads =
          put s.threads i (record { item = (s.threads i).item; stage = adding t; known = r.1 });
    }

-- `total_time.fetch_add(time_taken, Relaxed)`
unfoldable pub add_total : ℕ → ℕ → State → State
add_total i t s =
    let r = update_relaxed total_time (λ w. (w + t) % modulus) s.memory (s.threads i).known in
    record s {
      memory = r.0;
      threads =
          put s.threads i (record { item = (s.threads i).item; stage = raising t; known = r.1 });
    }

-- `max_time.fetch_max(time_taken, Relaxed)`, the end of the loop's body
unfoldable pub raise_max : ℕ → ℕ → State → State
raise_max i t s =
    let r = update_relaxed max_time (λ w. max w t) s.memory (s.threads i).known in
    record s {
      memory = r.0;
      threads =
          put s.threads i
            (record { item = (s.threads i).item + 1; stage = processing; known = r.1 });
    }

-- A load of the main thread, of the store numbered `t`, and what becomes of it
unfoldable pub load_next : ℕ → ℕ → (ℕ → Main) → State → State
load_next x t next s =
    if readable relaxed x t s.memory s.main_known
    then (let r = load relaxed x t s.memory s.main_known in
        record s { main = next r.0; main_known = r.1 })
    else s

-- `if n == 100 { break; } print_statistics(n, total_time, max_time)`
unfoldable pub decide_next : ℕ → ℕ → ℕ → State → State
decide_next n total largest s =
    if n == all_items
    then record s { main = finished }
    else record s { main = loading_total; printed = print_statistics n total largest ∷ s.printed }

pub work_step : ℕ → Stage → Action → State → State
unfolding process add_done add_total raise_max
work_step i processing (measure t) s = if ltb (s.threads i).item items then process i t s else s
work_step i (counting t) work s = add_done i t s
work_step i (adding t) work s = add_total i t s
work_step i (raising t) work s = raise_max i t s
work_step _ _ _ s = s

pub main_step : Main → Action → State → State
unfolding load_next decide_next
main_step loading_total (look t) s = load_next total_time t loading_max s
main_step (loading_max total) (look t) s = load_next max_time t (loading_num total) s
main_step (loading_num total largest) (look t) s =
    load_next num_done t (λ n. looked n total largest) s
main_step (looked n total largest) decide s = decide_next n total largest s
main_step _ _ s = s

-- Worker `i` below 4, or the main thread.
unfoldable pub step : ℕ × Action → State → State
unfolding work_step main_step
step (i, e) s = if ltb i workers then work_step i (s.threads i).stage e s else main_step s.main e s

unfoldable pub after : List (ℕ × Action) → State
unfolding step start run
after es = run step es start
