-- ===== src/SpinLock/Tests.antt =====
-- Runs of the spin locks, and the theorems at them.
use rust_atomics_and_locks.Base.{ℕ, ◌≡◌, refl, ◌⊎◌, true, false, List, [], ◌∷◌, arith}
use rust_atomics_and_locks.Memory.{Covers}
use rust_atomics_and_locks.Lock.{
  Action, attempt, deref, deref_mut, drop, holds, apply_all, guard, step, after,
}
use rust_atomics_and_locks.Lock.Safety.{
  mutual_exclusion, guard_race_free, no_lost_update, spinning_progress,
}
use rust_atomics_and_locks.SpinLock.Minimum
use rust_atomics_and_locks.SpinLock.Guarded
use rust_atomics_and_locks.SpinLock.Experiment.{relaxed_ops, relaxed_ops_race, handover}

-- Thread 0 pushes and unlocks while thread 1 spins; then thread 1 gets the lock and pushes twice.
abbrev pushes : List (ℕ × Action (List ℕ))
pushes =
    (0, attempt false)
    ∷ (1, attempt false)
    ∷ (0, deref)
    ∷ (0, deref_mut (λ v. 1 ∷ v))
    ∷ (0, drop)
    ∷ (1, attempt false)
    ∷ (1, deref)
    ∷ (1, deref_mut (λ v. 2 ∷ v))
    ∷ (1, deref)
    ∷ (1, deref_mut (λ v. 3 ∷ v))
    ∷ []

pushes_result : (after Guarded.lock_ops pushes []).value.content ≡ 3 ∷ 2 ∷ 1 ∷ []
unfolding after Guarded.lock_ops
pushes_result = refl

-- Thread 0 has the lock and thread 1 spins.
abbrev contended : List (ℕ × Action ℕ)
contended = (0, attempt false) ∷ (1, attempt false) ∷ []

mutual_exclusion_example : ◌≡◌ {A = ℕ} 1 1
unfolding after Guarded.lock_ops
mutual_exclusion_example = mutual_exclusion Guarded.lock_ops-IsLock pushes [] 1 1 refl refl

guard_race_free_example :
    Covers
      ((after Guarded.lock_ops pushes []).threads 1).local.seen
      (after Guarded.lock_ops pushes []).value.accesses
unfolding after Guarded.lock_ops
guard_race_free_example = guard_race_free Guarded.lock_ops-IsLock pushes [] 1 refl

no_lost_update_example :
    (after Guarded.lock_ops pushes []).value.content
    ≡ apply_all (after Guarded.lock_ops pushes []).log []
no_lost_update_example = no_lost_update Guarded.lock_ops-IsLock pushes []

spinning_progress_example :
    ((j : ℕ) × (holds ((after Minimum.lock_ops contended 7).threads j).pc ≡ true))
    ⊎ (((step Minimum.lock_ops (1, attempt false) (after Minimum.lock_ops contended 7)).threads
          1).pc
        ≡ guard)
unfolding after Minimum.lock_ops
spinning_progress_example = spinning_progress Minimum.lock_ops-IsLock contended 7 1 refl

relaxed_ops_race_example :
    (holds ((after {T = ℕ} relaxed_ops (handover 0 1) 5).threads 1).pc ≡ true)
    × ¬ Covers
        ((after {T = ℕ} relaxed_ops (handover 0 1) 5).threads 1).local.seen
        (after {T = ℕ} relaxed_ops (handover 0 1) 5).value.accesses
relaxed_ops_race_example = relaxed_ops_race 5 0 1 (omega arith)
