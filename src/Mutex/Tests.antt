-- ===== src/Mutex/Tests.antt =====
-- Runs of the mutexes over a futex that wakes in order, and the theorems at them.
use rust_atomics_and_locks.Base.{ℕ, suc, ◌≡◌, ◌≢◌, refl, ◌⊎◌, true, List, [], ◌∷◌, ◌++◌, map, arith}
use rust_atomics_and_locks.Memory.{Covers, Atomic, fresh, new}
use rust_atomics_and_locks.Futex.Fifo.{fifo, fifo-IsFutex}
use rust_atomics_and_locks.Mutex.{
  Action, lock, proceed, wait, resume, deref, deref_mut, drop, wake_one, holds, apply_all, after,
  retrying,
}
use rust_atomics_and_locks.Mutex.Wakeup.{rouses}
use rust_atomics_and_locks.Mutex.Safety.{
  mutex_exclusion, mutex_race_free, mutex_no_lost_update, no_lost_wakeup,
}
use rust_atomics_and_locks.Mutex.Basic
use rust_atomics_and_locks.Mutex.Avoiding
use rust_atomics_and_locks.Mutex.Avoiding.Uncontended.{calm, uncontended_no_system_call}
use rust_atomics_and_locks.Mutex.Spinning
use rust_atomics_and_locks.Mutex.Spinning.{spin_loop, spin_loop_ends}

-- `*m.lock() += 1`, when nobody else is there
abbrev increment : List (Action ℕ)
increment = lock ∷ proceed ∷ deref ∷ deref_mut suc ∷ drop ∷ []

-- Thread 1 goes to sleep while thread 0 has the guard.
abbrev asleep : List (ℕ × Action ℕ)
asleep =
    (0, lock)
    ∷ (0, proceed)
    ∷ (1, lock)
    ∷ (1, proceed)
    ∷ (1, proceed)
    ∷ (1, wait)
    ∷ (0, deref)
    ∷ (0, deref_mut suc)
    ∷ []

-- Thread 0 unlocks and wakes thread 1, which then increments the counter too.
abbrev handed_over : List (ℕ × Action ℕ)
handed_over =
    asleep
    ++ ((0, drop)
        ∷ (0, wake_one)
        ∷ (1, resume)
        ∷ (1, proceed)
        ∷ (1, deref)
        ∷ (1, deref_mut suc)
        ∷ [])

counts : (after Avoiding.mutex_ops fifo handed_over 40).value.content ≡ 42
unfolding after Avoiding.mutex_ops
counts = refl

mutex_exclusion_example : ◌≡◌ {A = ℕ} 1 1
unfolding after Avoiding.mutex_ops
mutex_exclusion_example =
    mutex_exclusion Avoiding.mutex_ops-IsMutex fifo handed_over 40 1 1 refl refl

mutex_race_free_example :
    Covers
      ((after Avoiding.mutex_ops fifo handed_over 40).threads 1).local.seen
      (after Avoiding.mutex_ops fifo handed_over 40).value.accesses
unfolding after Avoiding.mutex_ops
mutex_race_free_example = mutex_race_free Avoiding.mutex_ops-IsMutex fifo handed_over 40 1 refl

mutex_no_lost_update_example :
    (after Basic.mutex_ops fifo handed_over 40).value.content
    ≡ apply_all (after Basic.mutex_ops fifo handed_over 40).log 40
mutex_no_lost_update_example = mutex_no_lost_update Basic.mutex_ops-IsMutex fifo handed_over 40

no_lost_wakeup_example :
    ((j : ℕ) × (holds ((after Avoiding.mutex_ops fifo asleep 40).threads j).pc ≡ true)
      × ((Avoiding.mutex_ops.unlock
            (after Avoiding.mutex_ops fifo asleep 40).state
            ((after Avoiding.mutex_ops fifo asleep 40).threads j).local).0
          ≡ true))
    ⊎ ((j : ℕ) × (rouses
            (fifo.sleeps j (after Avoiding.mutex_ops fifo asleep 40).queue)
            ((after Avoiding.mutex_ops fifo asleep 40).threads j).pc
          ≡ true))
unfolding after Avoiding.mutex_ops
no_lost_wakeup_example =
    no_lost_wakeup Avoiding.mutex_ops-IsMutex fifo asleep 40 fifo-IsFutex 1 refl

uncontended_no_system_call_example :
    calm
      ((after Avoiding.mutex_ops fifo (map (λ e. (3, e)) (increment ++ increment)) 0).threads 3).pc
    ≡ true
uncontended_no_system_call_example = uncontended_no_system_call fifo 3 (increment ++ increment) 0

-- 101 loads that all find the mutex locked
abbrev always_locked : ℕ → List (Atomic ℕ)
always_locked ℕ.zero = []
always_locked (suc n) = new 1 ∷ always_locked n

spin_loop_ends_example : spin_loop 0 (always_locked 101) fresh ≡ retrying
spin_loop_ends_example = spin_loop_ends (always_locked 101) fresh (omega arith)

-- The third mutex lets the waiting thread spin first.
spins_first :
    ((after Spinning.mutex_ops fifo asleep 40).threads 1).pc
    ≢ ((after Avoiding.mutex_ops fifo asleep 40).threads 1).pc
unfolding after Avoiding.mutex_ops Spinning.mutex_ops
spins_first h = cc
