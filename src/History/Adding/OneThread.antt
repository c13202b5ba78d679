-- ===== src/History/Adding/OneThread.antt =====
-- `fn a` of examples/03-04_relaxed-ordering.rs beside the thread that loads.
pub mod Safety
use rust_atomics_and_locks.Base.{ℕ, List, run, if◌then◌else◌, ◌&&◌}
use rust_atomics_and_locks.Memory.{relaxed}
use rust_atomics_and_locks.History.{Store, Known, initial, unaware, readable, fetch_add_relaxed}
use rust_atomics_and_locks.History.Adding.{counter, Reader, loading_a, load_counter}

-- `fn a`: before `X.fetch_add(5, Relaxed)`, before `X.fetch_add(10, Relaxed)`, past both.
pub data Adder : Type 0 where
  adding_five adding_ten added : Adder

pub record State : Type 0 where
  pub memory : Store
  pub adder : Adder
  pub adder_known : Known
  pub reader : Reader
  pub reader_known : Known

pub data Action : Type 0 where
  add : Action
  look : (t : ℕ) → Action

unfoldable pub start : State
start = record {
  memory = initial;
  adder = adding_five;
  adder_known = unaware;
  reader = loading_a;
  reader_known = unaware;
}

-- `X.fetch_add(v, Relaxed)`
pub add_value : ℕ → Adder → State → State
add_value v next s =
    let r = fetch_add_relaxed counter v s.memory s.adder_known in
    record s { memory = r.0; adder = next; adder_known = r.1 }

-- The next statement of `fn a`
pub add_next : Adder → State → State
unfolding add_value
add_next adding_five s = add_value 5 adding_ten s
add_next adding_ten s = add_value 10 added s
add_next added s = s

-- The next load of `fn b`, of the store numbered `t`
pub look_at : ℕ → State → State
look_at t s =
    let r = load_counter t s.reader s.memory s.reader_known in
    record s { reader = r.0; reader_known = r.1 }

unfoldable pub step : Action → State → State
unfolding add_next look_at
step add s = add_next s.adder s
step (look t) s = if readable relaxed counter t s.memory s.reader_known then look_at t s else s

unfoldable pub after : List Action → State
unfolding step start run
after es = run step es start
