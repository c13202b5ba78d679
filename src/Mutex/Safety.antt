-- ===== src/Mutex/Safety.antt =====
-- What the mutexes of chapter 9 promise, for any algorithm that meets `IsMutex`.
use rust_atomics_and_locks.Base.{ℕ, ◌≡◌, ◌⊎◌, inl, inr, true, List}
use rust_atomics_and_locks.Memory.{Covers}
use rust_atomics_and_locks.Futex.{Futex, IsFutex}
use rust_atomics_and_locks.Mutex.{MutexOps, IsMutex, Action, holds, apply_all, after}
use rust_atomics_and_locks.Mutex.Invariant.{after-Inv}
use rust_atomics_and_locks.Mutex.Wakeup.{rouses}
use rust_atomics_and_locks.Mutex.Progress.{after-Wakeful}

module _ {T : Type 0} {o : MutexOps} (lawful : IsMutex o) (f : Futex) (es : List (ℕ × Action T))
    (v₀ : T) where
  -- Whatever the threads and the futex have done, no two threads have a guard at once.
  pub mutex_exclusion :
      (i j : ℕ)
      → holds ((after o f es v₀).threads i).pc ≡ true
      → holds ((after o f es v₀).threads j).pc ≡ true
      → i ≡ j
  mutex_exclusion i j = (after-Inv lawful f es v₀).unique i j

  -- The orderings suffice: every access to the value so far, by any thread, happens before the
  -- next operation of the thread that has the guard.
  pub mutex_race_free :
      (i : ℕ)
      → holds ((after o f es v₀).threads i).pc ≡ true
      → Covers ((after o f es v₀).threads i).local.seen (after o f es v₀).value.accesses
  mutex_race_free i held k = (after-Inv lawful f es v₀).informed i k held

  -- No update is lost: the value is what the updates written so far make of the first value when
  -- they are applied one after the other, in the order of their writes.
  pub mutex_no_lost_update : (after o f es v₀).value.content ≡ apply_all (after o f es v₀).log v₀
  mutex_no_lost_update = (after-Inv lawful f es v₀).logged

  -- No wake-up is lost: while a thread sleeps in the futex, either a thread has the guard and its
  -- drop will call `wake_one`, or a thread is about to call `wake_one`, about to swap the mark into
  -- the state, or was woken and has yet to return from `wait`.
  pub no_lost_wakeup :
      IsFutex f
      → (i : ℕ) → f.sleeps i (after o f es v₀).queue ≡ true
      → ((j : ℕ) × (holds ((after o f es v₀).threads j).pc ≡ true)
          × ((o.unlock (after o f es v₀).state ((after o f es v₀).threads j).local).0 ≡ true))
        ⊎ ((j : ℕ) × (rouses (f.sleeps j (after o f es v₀).queue) ((after o f es v₀).threads j).pc
              ≡ true))
  no_lost_wakeup kernel i asleep = elim ((after-Wakeful lawful kernel es v₀).roused i asleep) [
    | inl marked ↦
        let (j, held) = (after-Inv lawful f es v₀).owned (λ e. lawful.marked (cc)) in
        inl (j, held, lawful.wakes _ _ marked)
    | inr who ↦ inr who
  ]
