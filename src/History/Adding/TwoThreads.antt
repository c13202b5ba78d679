-- ===== src/History/Adding/TwoThreads.antt =====
-- `fn a1` and `fn a2` of examples/03-04_relaxed-ordering2.rs beside the thread that loads.
pub mod Safety
use rust_atomics_and_locks.Base.{ℕ, List, run, if◌then◌else◌, ◌&&◌}
use rust_atomics_and_locks.Memory.{relaxed}
use rust_atomics_and_locks.History.{Store, Known, initial, unaware, readable, fetch_add_relaxed}
use rust_atomics_and_locks.History.Adding.{counter, Reader, loading_a, load_counter}

-- `fn a1` and `fn a2`: before or past their `fetch_add`.
pub data Adder : Type 0 where
  adding added : Adder

pub record State : Type 0 where
  pub memory : Store
  pub five : Adder
  pub five_known : Known
  pub ten : Adder
  pub ten_known : Known
  pub reader : Reader
  pub reader_known : Known

pub data Action : Type 0 where
  add_five add_ten : Action
  look : (t : ℕ) → Action

unfoldable pub start : State
start = record {
  memory = initial;
  five = adding;
  five_known = unaware;
  ten = adding;
  ten_known = unaware;
  reader = loading_a;
  reader_known = unaware;
}

-- `fn a1`
pub add_next_five : Adder → State → State
add_next_five adding s =
    let r = fetch_add_relaxed counter 5 s.memory s.five_known in
    record s { memory = r.0; five = added; five_known = r.1 }
add_next_five added s = s

-- `fn a2`
pub add_next_ten : Adder → State → State
add_next_ten adding s =
    let r = fetch_add_relaxed counter 10 s.memory s.ten_known in
    record s { memory = r.0; ten = added; ten_known = r.1 }
add_next_ten added s = s

-- The next load of `fn b`, of the store numbered `t`
pub look_at : ℕ → State → State
look_at t s =
    let r = load_counter t s.reader s.memory s.reader_known in
    record s { reader = r.0; reader_known = r.1 }

unfoldable pub step : Action → State → State
unfolding add_next_five add_next_ten look_at
step add_five s = add_next_five s.five s
step add_ten s = add_next_ten s.ten s
step (look t) s = if readable relaxed counter t s.memory s.reader_known then look_at t s else s

unfoldable pub after : List Action → State
unfolding step start run
after es = run step es start
