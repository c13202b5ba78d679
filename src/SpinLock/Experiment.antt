-- ===== src/SpinLock/Experiment.antt =====
-- examples/07-04-03_experiment.rs: the first loop, whose orderings are wrong. Its compiler fences
-- order nothing between threads, so only the relaxed operations are left.
use rust_atomics_and_locks.Base.{ℕ, ◌≡◌, ◌≢◌, List, [], ◌∷◌, Bool, true, false, not, arith}
use rust_atomics_and_locks.Memory.{Covers, relaxed, Atomic, Local, store, swap}
use rust_atomics_and_locks.Lock.{LockOps, Action, attempt, deref, drop, holds, after}

lock : Bool → Atomic Bool → Local → Bool × Atomic Bool × Local
lock _ locked l = let r = swap relaxed true locked l in (not r.0, r.1, r.2)

unlock : Atomic Bool → Local → Atomic Bool
unlock locked l = store relaxed false l

pub relaxed_ops : LockOps
unfolding lock unlock
relaxed_ops = record { attempt = lock; unlock = unlock }

-- Thread `i` reads the counter under the lock, and then thread `j` takes the lock.
abbrev pub handover : {T : Type 0} → ℕ → ℕ → List (ℕ × Action T)
handover i j = (i, attempt false) ∷ (i, deref) ∷ (i, drop) ∷ (j, attempt false) ∷ []

-- With the relaxed orderings the lock still excludes, but the accesses race: whichever two threads
-- hand the lock over, the second has the guard and does not know of the first one's access.
pub relaxed_ops_race :
    {T : Type 0} (v₀ : T) (i j : ℕ)
    → i ≢ j
    → (holds ((after relaxed_ops (handover i j) v₀).threads j).pc ≡ true)
      × ¬ Covers
          ((after relaxed_ops (handover i j) v₀).threads j).local.seen
          (after relaxed_ops (handover i j) v₀).value.accesses
unfolding relaxed_ops after
relaxed_ops_race v₀ i j apart = (ground arith, λ c. ground (arith, c i))
