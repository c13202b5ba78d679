-- ===== src/History/TotalOrder.antt =====
-- examples/03-07_sequentially-consistent.rs: two threads that each set a flag of their own and push
-- to `S` only if the flag of the other is not set.
pub mod Safety
mod Tests
use rust_atomics_and_locks.Base.{
  ℕ, ◌+◌, ◌-◌, ◌≡◌, Bool, true, false, ◌&&◌, List, ◌==◌, if◌then◌else◌, put, run, ltb,
}
use rust_atomics_and_locks.Memory.{seq_cst}
use rust_atomics_and_locks.History.{Store, Known, initial, unaware, readable, load, store}

-- Before the store, past it, in the body of the `if`, past the `push`, and past the `if` without.
pub data Pc : Type 0 where
  starting stored entered pushed skipped : Pc

pub record Thread : Type 0 where
  pub pc : Pc
  pub known : Known

-- Thread 0 is `a` and has the flag `A`, thread 1 is `b` with `B`. `length` is that of `S`.
pub record State : Type 0 where
  pub memory : Store
  pub threads : ℕ → Thread
  pub length : ℕ

pub data Action : Type 0 where
  set push : Action
  test : (t : ℕ) → Action

unfoldable pub start : State
start = record {
  memory = initial;
  threads = λ i. record { pc = starting; known = unaware };
  length = 0;
}

abbrev pub goto : ℕ → Pc → Known → State → ℕ → Thread
goto i p k s = put s.threads i (record { pc = p; known = k })

-- `A.store(true, SeqCst)`, and `B.store(true, SeqCst)`
pub set_flag : ℕ → State → State
set_flag i s =
    let r = store seq_cst i 1 s.memory (s.threads i).known in
    record s { memory = r.0; threads = goto i stored r.1 s }

-- `if !B.load(SeqCst)`, and `if !A.load(SeqCst)`
pub test_other : ℕ → ℕ → State → State
test_other i t s =
    let r = load seq_cst (1 - i) t s.memory (s.threads i).known in
    record s { threads = goto i (if r.0 == 0 then entered else skipped) r.1 s }

-- `S.push('!')`
pub push_mark : ℕ → State → State
push_mark i s = record s { threads = goto i pushed (s.threads i).known s; length = s.length + 1 }

-- An action that is not the next, or loads what it cannot, does not happen.
pub perform : ℕ → Pc → Action → State → State
unfolding set_flag test_other push_mark
perform i starting set s = set_flag i s
perform i stored (test t) s =
    if readable seq_cst (1 - i) t s.memory (s.threads i).known then test_other i t s else s
perform i entered push s = push_mark i s
perform _ _ _ s = s

unfoldable pub step : ℕ × Action → State → State
unfolding perform
step (i, e) s = if ltb i 2 then perform i (s.threads i).pc e s else s

-- `S` and the flags after the two threads have run.
unfoldable pub after : List (ℕ × Action) → State
unfolding step start run
after es = run step es start
