-- ===== src/History/Fence.antt =====
-- examples/03-08_fence.rs: ten threads that each calculate a number and then set a flag, and the
-- main thread, which loads all flags and passes one fence for those that it found set.
--
-- `DATA[i]` is location `i` and `READY[i]` location `10 + i`. A plain write is one store; a plain
-- read finds any value that is not older than what its thread knows. How long the threads sleep
-- is left to the schedule.
mod Threads
pub mod Safety
mod Tests
use rust_atomics_and_locks.Base.{
  ℕ, zero, suc, ◌+◌, ◌*◌, ◌≡◌, Bool, true, false, ◌&&◌, ◌||◌, not, List, [], ◌∷◌, ◌==◌,
  if◌then◌else◌, put, run, ltb,
}
use rust_atomics_and_locks.Memory.{relaxed, release}
use rust_atomics_and_locks.History.{
  Store, Known, initial, unaware, readable, load, store, acquire_fence,
}

-- The result of `fn some_calculation(i: usize) -> u64`
pub some_calculation : ℕ → ℕ
some_calculation i = i * i

-- A spawned thread: before its write, between its write and its store, past both.
pub data Stage : Type 0 where
  calculating written signalled : Stage

-- The main thread: loading `READY[i]`, in the loop past the fence at `i`, finished.
pub data Main : Type 0 where
  loading : (i : ℕ) → Main
  printing : (i : ℕ) → Main
  finished : Main

pub record Thread : Type 0 where
  pub stage : Stage
  pub known : Known

-- `ready` is the array that main fills, and `printed` what it printed, the newest first.
pub record State : Type 0 where
  pub memory : Store
  pub threads : ℕ → Thread
  pub main : Main
  pub main_known : Known
  pub ready : ℕ → Bool
  pub printed : List (ℕ × ℕ)

pub data Action : Type 0 where
  write set_ready : (i : ℕ) → Action
  load_ready print : (t : ℕ) → Action
  check : Action

unfoldable pub start : State
start = record {
  memory = initial;
  threads = λ i. record { stage = calculating; known = unaware };
  main = loading 0;
  main_known = unaware;
  ready = λ i. false;
  printed = [];
}

-- `DATA[i] = some_calculation(i)`
pub write_data : ℕ → State → State
unfolding some_calculation
write_data i s =
    let r = store relaxed i (some_calculation i) s.memory (s.threads i).known in
    record s { memory = r.0; threads = put s.threads i (record { stage = written; known = r.1 }) }

-- `READY[i].store(true, Release)`
pub set_flag : ℕ → State → State
set_flag i s =
    let r = store release (10 + i) 1 s.memory (s.threads i).known in
    record s { memory = r.0; threads = put s.threads i (record { stage = signalled; known = r.1 }) }

-- One element of `std::array::from_fn(|i| READY[i].load(Relaxed))`
pub load_flag : ℕ → ℕ → State → State
load_flag i t s =
    let r = load relaxed (10 + i) t s.memory s.main_known in
    record s { main = loading (i + 1); main_known = r.1; ready = put s.ready i (not (r.0 == 0)) }

-- `contains(&true)`
pub contains_true : ℕ → (ℕ → Bool) → Bool
contains_true zero ready = false
contains_true (suc n) ready = ready n || contains_true n ready

-- `if ready.contains(&true) { fence(Acquire); ... }`
pub check_ready : State → State
unfolding contains_true
check_ready s =
    if contains_true 10 s.ready
    then record s { main = printing 0; main_known = acquire_fence s.main_known }
    else record s { main = finished }

-- `if ready[i] { println!("data{i} = {}", DATA[i]); }`, where the plain read finds the store `t`
pub print_data : ℕ → ℕ → State → State
print_data i t s =
    let r = load relaxed i t s.memory s.main_known in
    if s.ready i
    then record s { main = printing (i + 1); main_known = r.1; printed = (i, r.0) ∷ s.printed }
    else record s { main = printing (i + 1) }

-- Like a relaxed load, a plain read can find any store that is not older than what main knows.
pub can_print : ℕ → ℕ → State → Bool
can_print i t s = not (s.ready i) || readable relaxed i t s.memory s.main_known

-- An action that is not a thread's next, or loads what it cannot, does not happen.
pub thread_step : Stage → ℕ → Action → State → State
unfolding write_data set_flag
thread_step calculating i (write j) s = if i == j then write_data i s else s
thread_step written i (set_ready j) s = if i == j then set_flag i s else s
thread_step _ _ _ s = s

pub main_step : Main → Action → State → State
unfolding load_flag check_ready can_print print_data
main_step (loading i) (load_ready t) s =
    if ltb i 10 && readable relaxed (10 + i) t s.memory s.main_known then load_flag i t s else s
main_step (loading i) check s = if ltb i 10 then s else check_ready s
main_step (printing i) (print t) s =
    if ltb i 10
    then if can_print i t s then print_data i t s else s
    else record s { main = finished }
main_step _ _ s = s

-- The thread that an action is of, or none of the ten.
abbrev pub actor : Action → ℕ
actor (write i) = i
actor (set_ready i) = i
actor _ = 10

unfoldable pub step : Action → State → State
unfolding thread_step main_step
step e s =
    if ltb (actor e) 10
    then thread_step (s.threads (actor e)).stage (actor e) e s
    else main_step s.main e s

unfoldable pub after : List Action → State
unfolding step start run
after es = run step es start
