-- ===== src/Queue.antt =====
-- examples/05-01_simple-channel-with-mutex.rs: a queue under a mutex, with a condition variable.
--
-- Any number of threads send and receive. What a thread does while it holds the mutex is one step
-- here, since `std::sync::Mutex` excludes the others. The sleepers of the condition variable are
-- those of `Futex`, which has what the standard library documents of `Condvar` too: `notify_one`
-- wakes a sleeper if there is one, and a thread may wake by itself.
pub mod Safety
mod Tests
use rust_atomics_and_locks.Base.{
  ℕ, ◌≡◌, Bool, true, false, List, [], ◌∷◌, ◌++◌, if◌then◌else◌, put, run,
}
use rust_atomics_and_locks.Futex.{Futex}

-- Between two calls; past the `push_back` of `send`; in the loop of `receive`, about to take the
-- lock; in the `wait` of the condition variable; returned.
pub data Pc (T : Type 0) : Type 0 where
  idle notifying receiving waiting : Pc T
  returned : (message : T) → Pc T

pub data Action (T : Type 0) : Type 0 where
  send : (message : T) → Action T
  notify receive pop return : Action T

module _ (f : Futex) where
  -- `sent` and `received` hold the messages in the order of the calls; neither is in the source.
  pub record Channel (T : Type 0) : Type 0 where
    pub queue : List T
    pub item_ready : f.Queue
    pub threads : ℕ → Pc T
    pub sent : List T
    pub received : List T

  module _ {T : Type 0} where
    -- `Channel::default()`
    unfoldable pub default : Channel T
    default = record {
      queue = [];
      item_ready = f.nobody;
      threads = λ i. idle;
      sent = [];
      received = [];
    }

    -- `self.queue.lock().unwrap().push_back(message)`
    pub push_back : ℕ → T → Channel T → Channel T
    push_back i v s = record s {
      queue = s.queue ++ v ∷ [];
      sent = s.sent ++ v ∷ [];
      threads = put s.threads i notifying;
    }

    -- `self.item_ready.notify_one()`
    pub notify_one : ℕ → Channel T → Channel T
    notify_one i s = record s {
      item_ready = f.wake_one s.item_ready;
      threads = put s.threads i idle;
    }

    -- `if let Some(message) = queue.pop_front() { return message; }`, and otherwise
    -- `queue = self.item_ready.wait(queue).unwrap()`, which sleeps and releases the lock at once.
    pub pop_front : ℕ → List T → Channel T → Channel T
    pop_front i (v ∷ vs) s = record s {
      queue = vs;
      received = s.received ++ v ∷ [];
      threads = put s.threads i (returned v);
    }
    pop_front i [] s = record s {
      item_ready = f.suspend i s.item_ready;
      threads = put s.threads i waiting;
    }

    -- A sleeper that was woken, or that wakes by itself, is off the condition variable's queue.
    pub wake : ℕ → Channel T → Channel T
    wake i s = record s { item_ready = f.leave i s.item_ready; threads = put s.threads i receiving }

    -- An action that is not the thread's next one does not happen.
    pub perform : ℕ → Pc T → Action T → Channel T → Channel T
    unfolding push_back notify_one pop_front wake
    perform i idle (send v) s = push_back i v s
    perform i (returned w) (send v) s = push_back i v s
    perform i notifying notify s = notify_one i s
    perform i idle receive s = record s { threads = put s.threads i receiving }
    perform i (returned w) receive s = record s { threads = put s.threads i receiving }
    perform i receiving pop s = pop_front i s.queue s
    perform i waiting return s = wake i s
    perform _ _ _ s = s

    unfoldable pub step : ℕ × Action T → Channel T → Channel T
    unfolding perform
    step (i, e) s = perform i (s.threads i) e s

    -- The channel after the threads have run.
    unfoldable pub after : List (ℕ × Action T) → Channel T
    unfolding step default run
    after es = run step es default
