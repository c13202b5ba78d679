-- ===== src/History/MessagePassing.antt =====
-- examples/03-05_release-acquire-ordering.rs: a thread stores `DATA` and then sets `READY`, and the
-- main thread waits for `READY` and then loads `DATA`.
pub mod Safety
mod Tests
use rust_atomics_and_locks.Base.{ℕ, ◌≡◌, Bool, true, false, List, ◌==◌, if◌then◌else◌, run}
use rust_atomics_and_locks.Memory.{relaxed, acquire, release}
use rust_atomics_and_locks.History.{Store, Known, initial, unaware, readable, load, store}

-- `static DATA: AtomicU32`, and `static READY: AtomicBool`
abbrev pub data_cell : ℕ
data_cell = 0

abbrev pub ready : ℕ
ready = 1

-- The spawned thread: before its stores, between them, after them.
pub data Sender : Type 0 where
  starting stored signalled : Sender

-- The main thread: in its loop, past it, past `println!("{}", ...)` with what it printed.
pub data Main : Type 0 where
  waiting reading : Main
  printed : (v : ℕ) → Main

pub record State : Type 0 where
  pub memory : Store
  pub sender : Sender
  pub sender_known : Known
  pub main : Main
  pub main_known : Known

pub data Action : Type 0 where
  store_data store_ready : Action
  load_ready load_data : (t : ℕ) → Action

unfoldable pub start : State
start = record {
  memory = initial;
  sender = starting;
  sender_known = unaware;
  main = waiting;
  main_known = unaware;
}

-- `DATA.store(123, Relaxed)`
pub set_data : State → State
set_data s =
    let r = store relaxed data_cell 123 s.memory s.sender_known in
    record s { memory = r.0; sender = stored; sender_known = r.1 }

-- `READY.store(true, Release)`
pub set_ready : State → State
set_ready s =
    let r = store release ready 1 s.memory s.sender_known in
    record s { memory = r.0; sender = signalled; sender_known = r.1 }

-- `while !READY.load(Acquire)`
pub test_ready : ℕ → State → State
test_ready t s =
    let r = load acquire ready t s.memory s.main_known in
    record s { main = if r.0 == 0 then waiting else reading; main_known = r.1 }

-- `println!("{}", DATA.load(Relaxed))`
pub print_data : ℕ → State → State
print_data t s =
    let r = load relaxed data_cell t s.memory s.main_known in
    record s { main = printed r.0; main_known = r.1 }

pub send_step : Sender → Action → State → State
unfolding set_data set_ready
send_step starting store_data s = set_data s
send_step stored store_ready s = set_ready s
send_step _ _ s = s

pub main_step : Main → Action → State → State
unfolding test_ready print_data
main_step waiting (load_ready t) s =
    if readable acquire ready t s.memory s.main_known then test_ready t s else s
main_step reading (load_data t) s =
    if readable relaxed data_cell t s.memory s.main_known then print_data t s else s
main_step _ _ s = s

-- The actions of the two threads are different; one that is not next, or loads what it cannot,
-- does not happen.
unfoldable pub step : Action → State → State
unfolding send_step main_step
step e s = let s' = send_step s.sender e s in main_step s'.main e s'

unfoldable pub after : List Action → State
unfolding step start run
after es = run step es start
