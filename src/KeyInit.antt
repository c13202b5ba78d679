-- ===== src/KeyInit.antt =====
-- examples/02-03-02_lazy-initialization.rs: threads that call `get_key`.
--
-- Any number of threads interleave, and each may call again when its call has returned. All
-- orderings are relaxed. The keys that the threads generate are a parameter, `draw`, since random
-- keys differ; that of the source is `generate_random_key`.
pub mod Safety
mod Tests
use rust_atomics_and_locks.Base.{ℕ, ◌≡◌, Bool, true, false, List, ◌==◌, if◌then◌else◌, put, run}
use rust_atomics_and_locks.Memory.{Local, fresh, relaxed, Atomic, new, load, compare_exchange}

-- `fn generate_random_key() -> u64 { 42 }`
abbrev pub generate_random_key : ℕ → ℕ
generate_random_key i = 42

-- Before the first call; past a load that found 0, with the new key; returned.
pub data Pc : Type 0 where
  idle : Pc
  exchanging : (new_key : ℕ) → Pc
  returned : (key : ℕ) → Pc

pub record Thread : Type 0 where
  pub pc : Pc
  pub local : Local

-- The static `KEY`, and the threads.
pub record Key : Type 0 where
  pub key : Atomic ℕ
  pub threads : ℕ → Thread

pub data Action : Type 0 where
  call exchange : Action

-- `static KEY: AtomicU64 = AtomicU64::new(0)`
pub start : Key
start = record { key = new 0; threads = λ i. record { pc = idle; local = fresh } }

-- `let key = KEY.load(Relaxed); if key == 0 { let new_key = generate_random_key(); ... }`
abbrev pub loaded : ℕ → Key → Local → Thread
loaded drawn s l =
    let r = load relaxed s.key l in
    record { pc = if r.0 == 0 then exchanging drawn else returned r.0; local = r.1 }

pub load_key : ℕ → ℕ → Key → Key
load_key drawn i s = record s { threads = put s.threads i (loaded drawn s (s.threads i).local) }

-- `match KEY.compare_exchange(0, new_key, Relaxed, Relaxed) { Ok(_) => new_key, Err(k) => k }`
pub exchange_key : ℕ → ℕ → Key → Key
exchange_key i new_key s =
    let r = compare_exchange relaxed relaxed (λ v. v == 0) new_key s.key (s.threads i).local in
    record {
      key = r.2;
      threads =
          put s.threads i (record { pc = returned (if r.0 then new_key else r.1); local = r.3 });
    }

-- An action that is not the thread's next one does not happen. Thread `i` generates `draw i`.
module _ (draw : ℕ → ℕ) where
  pub perform : ℕ → Pc → Action → Key → Key
  unfolding load_key exchange_key
  perform i idle call s = load_key (draw i) i s
  perform i (returned k) call s = load_key (draw i) i s
  perform i (exchanging new_key) exchange s = exchange_key i new_key s
  perform _ _ _ s = s

  unfoldable pub step : ℕ × Action → Key → Key
  unfolding perform
  step (i, e) s = perform i (s.threads i).pc e s

  -- The state after the threads have run.
  unfoldable pub after : List (ℕ × Action) → Key
  unfolding step start run
  after es = run step es start
