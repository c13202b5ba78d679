-- ===== src/Mutex.antt =====
-- The mutexes of chapter 9 and the threads that use them, with the algorithm left open: examples
-- 09-01_mutex.rs, 09-01-01_avoiding-system-call.rs and 09-01-02_further-improvements.rs fill it.
--
-- Any number of threads interleave. A thread goes through the stages of `lock`, in which it may
-- sleep in the futex, then it reads and writes through its guard, and its `drop` unlocks and may
-- then wake a thread. The futex may let a sleeping thread return at any time.
mod Invariant
mod Wakeup
mod Progress
pub mod Safety
pub mod Basic
pub mod Avoiding
pub mod Spinning
mod Tests
use rust_atomics_and_locks.Base.{
  ℕ, ◌+◌, ◌≤◌, ◌≡◌, ◌≢◌, ◌↔◌, Bool, true, false, List, [], ◌∷◌, if◌then◌else◌, put, run, ◌==◌, ◌⊎◌,
  not,
}
use rust_atomics_and_locks.Memory.{Local, fresh, Atomic, new, Cell, cell, touch, note}
use rust_atomics_and_locks.Futex.{Futex}

-- Where a thread stands within `lock`: at its start, in the spin loop after `k` rounds, at the
-- exchange after that loop, before a swap of the contended loop, before `wait`, at the end.
pub data Stage : Type 0 where
  entering : Stage
  spinning : (k : ℕ) → Stage
  retrying contended parking locked : Stage

-- `advance` is what `lock` does to `state` at a stage, and `unlock` what `drop` does, with the
-- answer whether it calls `wake_one`. `mark` is the value that `wait` expects.
pub record MutexOps : Type 0 where
  pub mark : ℕ
  pub advance : Stage → Atomic ℕ → Local → Stage × Atomic ℕ × Local
  pub unlock : Atomic ℕ → Local → Bool × Atomic ℕ × Local

-- What an algorithm owes to its users. The views are compared at the accesses of thread `j`.
pub record IsMutex (o : MutexOps) : Type 0 where
  pub marked : o.mark ≢ 0
  pub taken :
      (s : Stage) (a : Atomic ℕ) (l : Local)
      → a.value ≤ o.mark
      → (o.advance s a l).0 ≡ locked
      → (a.value ≡ 0) × ((o.advance s a l).1.value ≢ 0)
  pub acquired :
      (s : Stage) (a : Atomic ℕ) (l : Local) (j : ℕ)
      → (o.advance s a l).0 ≡ locked
      → a.released j ≤ (o.advance s a l).2.seen j
  pub refused :
      (s : Stage) (a : Atomic ℕ) (l : Local)
      → (o.advance s a l).0 ≢ locked
      → ((o.advance s a l).1.value ≡ 0) ↔ (a.value ≡ 0)
  pub unchanged :
      (s : Stage) (a : Atomic ℕ) (l : Local) (j : ℕ)
      → (o.advance s a l).0 ≢ locked
      → a.value ≡ 0
      → a.released j ≤ (o.advance s a l).1.released j
  pub marks : (a : Atomic ℕ) (l : Local) → (o.advance contended a l).1.value ≡ o.mark
  pub keeps_mark :
      (s : Stage) (a : Atomic ℕ) (l : Local) → a.value ≡ o.mark → (o.advance s a l).1.value ≡ o.mark
  pub ranged :
      (s : Stage) (a : Atomic ℕ) (l : Local) → a.value ≤ o.mark → (o.advance s a l).1.value ≤ o.mark
  pub freed : (a : Atomic ℕ) (l : Local) → (o.unlock a l).1.value ≡ 0
  pub published : (a : Atomic ℕ) (l : Local) (j : ℕ) → l.seen j ≤ (o.unlock a l).1.released j
  pub wakes : (a : Atomic ℕ) (l : Local) → a.value ≡ o.mark → (o.unlock a l).0 ≡ true

-- Where a thread stands. Through the guard it has read `v`, which it may use for what it writes.
pub data Pc (T : Type 0) : Type 0 where
  idle : Pc T
  acquiring : (s : Stage) → Pc T
  waiting guard : Pc T
  loaded : (v : T) → Pc T
  waking : Pc T

pub record Thread (T : Type 0) : Type 0 where
  pub pc : Pc T
  pub local : Local

-- `Q` is the futex's queue. `log` holds the updates in the order of their writes, the newest
-- first; it is not in the source.
pub record Mutex (T Q : Type 0) : Type 0 where
  pub state : Atomic ℕ
  pub value : Cell T
  pub queue : Q
  pub threads : ℕ → Thread T
  pub log : List (T → T)

pub data Action (T : Type 0) : Type 0 where
  lock proceed wait resume spurious deref : Action T
  deref_mut : (f : T → T) → Action T
  drop wake_one : Action T

module _ {T : Type 0} where
  abbrev pub holds : Pc T → Bool
  holds guard = true
  holds (loaded v) = true
  holds _ = false

  abbrev pub settle : Stage → Pc T
  settle locked = guard
  settle s = acquiring s

  abbrev pub apply_all : List (T → T) → T → T
  apply_all [] v = v
  apply_all (f ∷ fs) v = f (apply_all fs v)

  -- Thread `i` goes on to `p`, and nothing else changes.
  abbrev pub goto : {Q : Type 0} → ℕ → Pc T → Mutex T Q → Mutex T Q
  goto i p s = record s {
    threads = put s.threads i (record { pc = p; local = (s.threads i).local });
  }

  read : {Q : Type 0} → ℕ → Mutex T Q → Mutex T Q
  read i s = record s {
    value = touch i s.value.content s.value;
    threads =
        put s.threads i
          (record { pc = loaded s.value.content; local = note i s.value (s.threads i).local });
  }

  write : {Q : Type 0} → ℕ → (T → T) → T → Mutex T Q → Mutex T Q
  write i f v s = record s {
    value = touch i (f v) s.value;
    threads = put s.threads i (record { pc = guard; local = note i s.value (s.threads i).local });
    log = f ∷ s.log;
  }

  attempt : {Q : Type 0} → MutexOps → ℕ → Stage → Mutex T Q → Mutex T Q
  attempt o i st s =
      let r = o.advance st s.state (s.threads i).local in
      record s { state = r.1; threads = put s.threads i (record { pc = settle r.0; local = r.2 }) }

  release : {Q : Type 0} → MutexOps → ℕ → Mutex T Q → Mutex T Q
  release o i s =
      let r = o.unlock s.state (s.threads i).local in
      record s {
        state = r.1;
        threads = put s.threads i (record { pc = if r.0 then waking else idle; local = r.2 });
      }

module _ {T : Type 0} (o : MutexOps) (f : Futex) where
  -- `Mutex::new(value)`, before any thread has used it
  unfoldable pub start : T → Mutex T f.Queue
  start v = record {
    state = new 0;
    value = cell v;
    queue = f.nobody;
    threads = λ i. record { pc = idle; local = fresh };
    log = [];
  }

  -- `wait(&self.state, mark)`: the comparison and the suspension are one step of the kernel.
  park : ℕ → Mutex T f.Queue → Mutex T f.Queue
  park i s =
      if s.state.value == o.mark
      then goto i waiting (record s { queue = f.suspend i s.queue })
      else goto i (acquiring contended) s

  -- A thread that was woken returns from `wait`.
  resume_wait : ℕ → Mutex T f.Queue → Mutex T f.Queue
  resume_wait i s = if f.sleeps i s.queue then s else goto i (acquiring contended) s

  -- An action that is not the thread's next one does not happen.
  perform : ℕ → Pc T → Action T → Mutex T f.Queue → Mutex T f.Queue
  unfolding park resume_wait read write attempt release
  perform i idle lock s = goto i (acquiring entering) s
  perform i (acquiring parking) wait s = park i s
  perform i (acquiring parking) _ s = s
  perform i (acquiring st) proceed s = attempt o i st s
  perform i waiting resume s = resume_wait i s
  perform i waiting spurious s =
      goto i (acquiring contended) (record s { queue = f.leave i s.queue })
  perform i guard deref s = read i s
  perform i (loaded v) (deref_mut g) s = write i g v s
  perform i guard drop s = release o i s
  perform i (loaded v) drop s = release o i s
  perform i waking wake_one s = goto i idle (record s { queue = f.wake_one s.queue })
  perform _ _ _ s = s

  unfoldable pub step : ℕ × Action T → Mutex T f.Queue → Mutex T f.Queue
  unfolding perform
  step (i, e) s = perform i (s.threads i).pc e s

  -- The mutex after the threads have run.
  unfoldable pub after : List (ℕ × Action T) → T → Mutex T f.Queue
  unfolding step start run
  after es v = run step es (start v)
