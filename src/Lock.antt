-- ===== src/Lock.antt =====
-- A lock with a guard, and the threads that use it: examples/04-03_safe-interface-with-lock-guard.rs
-- with the locking operations left open, since several examples implement them.
--
-- Any number of threads interleave. A thread makes attempts to lock until one succeeds, then it
-- reads and writes the value through its guard in any way, and drops the guard or moves it to
-- another thread, as `Send` allows. That threads share one guard is not modelled.
mod Invariant
pub mod Safety
use rust_atomics_and_locks.Base.{
  ℕ, ◌+◌, ◌≤◌, ◌≡◌, Bool, true, false, List, [], ◌∷◌, if◌then◌else◌, put, run,
}
use rust_atomics_and_locks.Memory.{Local, fresh, join, Atomic, new, Cell, cell, touch, note}

-- One round of the loop in `lock`, with the failure that a weak exchange may invent, and the store
-- of `unlock` or of the guard's `drop`.
pub record LockOps : Type 0 where
  pub attempt : Bool → Atomic Bool → Local → Bool × Atomic Bool × Local
  pub unlock : Atomic Bool → Local → Atomic Bool

-- What a lock owes to its users. The views are compared at the accesses of thread `j`.
pub record IsLock (o : LockOps) : Type 0 where
  pub taken :
      (b : Bool) (a : Atomic Bool) (l : Local)
      → (o.attempt b a l).0 ≡ true
      → (a.value ≡ false) × ((o.attempt b a l).1.value ≡ true)
  pub acquired :
      (b : Bool) (a : Atomic Bool) (l : Local) (j : ℕ)
      → (o.attempt b a l).0 ≡ true
      → a.released j ≤ (o.attempt b a l).2.seen j
  pub refused :
      (b : Bool) (a : Atomic Bool) (l : Local)
      → (o.attempt b a l).0 ≡ false
      → (o.attempt b a l).1.value ≡ a.value
  pub unchanged :
      (b : Bool) (a : Atomic Bool) (l : Local) (j : ℕ)
      → (o.attempt b a l).0 ≡ false
      → a.value ≡ false
      → a.released j ≤ (o.attempt b a l).1.released j
  pub free_taken : (a : Atomic Bool) (l : Local) → a.value ≡ false → (o.attempt false a l).0 ≡ true
  pub freed : (a : Atomic Bool) (l : Local) → (o.unlock a l).value ≡ false
  pub published : (a : Atomic Bool) (l : Local) (j : ℕ) → l.seen j ≤ (o.unlock a l).released j

-- Where a thread stands: outside, in the loop of `lock`, or with its `Guard`. Through the guard it
-- has read `v`, which it may use for what it writes next.
pub data Pc (T : Type 0) : Type 0 where
  idle spinning guard : Pc T
  loaded : (v : T) → Pc T

pub record Thread (T : Type 0) : Type 0 where
  pub pc : Pc T
  pub local : Local

-- `log` holds the updates in the order of their writes, the newest first. It is not in the source.
pub record SpinLock (T : Type 0) : Type 0 where
  pub locked : Atomic Bool
  pub value : Cell T
  pub threads : ℕ → Thread T
  pub log : List (T → T)

pub data Action (T : Type 0) : Type 0 where
  attempt : (spurious : Bool) → Action T
  deref : Action T
  deref_mut : (f : T → T) → Action T
  drop : Action T
  give : (j : ℕ) → Action T

module _ {T : Type 0} where
  abbrev pub holds : Pc T → Bool
  holds idle = false
  holds spinning = false
  holds guard = true
  holds (loaded v) = true

  abbrev pub is_idle : Pc T → Bool
  is_idle idle = true
  is_idle _ = false

  abbrev pub apply_all : List (T → T) → T → T
  apply_all [] v = v
  apply_all (f ∷ fs) v = f (apply_all fs v)

  -- `SpinLock::new(value)`, before any thread has used it
  unfoldable pub start : T → SpinLock T
  start v = record {
    locked = new false;
    value = cell v;
    threads = λ i. record { pc = idle; local = fresh };
    log = [];
  }

module _ {T : Type 0} (o : LockOps) where
  try_lock : ℕ → Bool → SpinLock T → SpinLock T
  try_lock i spurious s =
      let r = o.attempt spurious s.locked (s.threads i).local in
      record s {
        locked = r.1;
        threads = put s.threads i (record { pc = if r.0 then guard else spinning; local = r.2 });
      }

  read : ℕ → SpinLock T → SpinLock T
  read i s = record s {
    value = touch i s.value.content s.value;
    threads =
        put s.threads i
          (record { pc = loaded s.value.content; local = note i s.value (s.threads i).local });
  }

  write : ℕ → (T → T) → T → SpinLock T → SpinLock T
  write i f v s = record s {
    value = touch i (f v) s.value;
    threads = put s.threads i (record { pc = guard; local = note i s.value (s.threads i).local });
    log = f ∷ s.log;
  }

  release : ℕ → SpinLock T → SpinLock T
  release i s = record s {
    locked = o.unlock s.locked (s.threads i).local;
    threads = put s.threads i (record { pc = idle; local = (s.threads i).local });
  }

  -- Thread `i` moves its guard to thread `j`, which then knows what `i` knows.
  hand_over : ℕ → ℕ → SpinLock T → SpinLock T
  hand_over i j s =
      let known = (s.threads i).local in
      let left = put s.threads i (record { pc = idle; local = known }) in
      record s {
        threads = put left j (record {
          pc = guard;
          local = record {
            seen = join (left j).local.seen known.seen;
            unfenced = (left j).local.unfenced;
          };
        });
      }

  -- An action that is not the thread's next one does not happen.
  perform : ℕ → Pc T → Action T → SpinLock T → SpinLock T
  unfolding try_lock read write release hand_over
  perform i idle (attempt b) s = try_lock i b s
  perform i spinning (attempt b) s = try_lock i b s
  perform i guard deref s = read i s
  perform i (loaded v) (deref_mut f) s = write i f v s
  perform i guard drop s = release i s
  perform i (loaded v) drop s = release i s
  perform i guard (give j) s = if is_idle (s.threads j).pc then hand_over i j s else s
  perform _ _ _ s = s

  unfoldable pub step : ℕ × Action T → SpinLock T → SpinLock T
  unfolding perform
  step (i, e) s = perform i (s.threads i).pc e s

  -- What is left of the value after the threads have run.
  unfoldable pub after : List (ℕ × Action T) → T → SpinLock T
  unfolding step start run
  after es v = run step es (start v)
