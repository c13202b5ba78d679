-- ===== src/Lock/Safety.antt =====
-- What the guard of examples/04-03_safe-interface-with-lock-guard.rs promises, for any lock.
use rust_atomics_and_locks.Base.{
  ℕ, ◌≡◌, ◌⊎◌, inl, inr, Bool, true, false, List, arith, Bool-cases, put_self,
}
use rust_atomics_and_locks.Memory.{Covers}
use rust_atomics_and_locks.Lock.{
  LockOps, IsLock, spinning, guard, SpinLock, Action, attempt, holds, apply_all, step, after,
  perform, try_lock,
}
use rust_atomics_and_locks.Lock.Invariant.{after-Inv}

try_lock-guard :
    {T : Type 0} (o : LockOps) (i : ℕ) (b : Bool) (s : SpinLock T)
    → (o.attempt b s.locked (s.threads i).local).0 ≡ true
    → ((try_lock o i b s).threads i).pc ≡ guard
unfolding try_lock
try_lock-guard o i b s won = ground (arith, put_self s.threads i)

module _ {T : Type 0} {o : LockOps} (lawful : IsLock o) (es : List (ℕ × Action T)) (v₀ : T) where
  -- Whatever the threads have done, no two of them have a guard at once.
  pub mutual_exclusion :
      (i j : ℕ)
      → holds ((after o es v₀).threads i).pc ≡ true
      → holds ((after o es v₀).threads j).pc ≡ true
      → i ≡ j
  mutual_exclusion i j = (after-Inv lawful es v₀).unique i j

  -- The orderings suffice: whatever the threads have done, every access to the value so far, by
  -- any thread, happens before the next operation of the thread that has the guard.
  pub guard_race_free :
      (i : ℕ)
      → holds ((after o es v₀).threads i).pc ≡ true
      → Covers ((after o es v₀).threads i).local.seen (after o es v₀).value.accesses
  guard_race_free i held k = (after-Inv lawful es v₀).informed i k held

  -- No update is lost: the value is what the updates written so far make of the first value when
  -- they are applied one after the other, in the order of their writes.
  pub no_lost_update : (after o es v₀).value.content ≡ apply_all (after o es v₀).log v₀
  no_lost_update = (after-Inv lawful es v₀).logged

  -- No deadlock: if a thread is in the loop of `lock`, then either some thread has the guard, or
  -- its next attempt gets it, unless a weak exchange fails spuriously.
  pub spinning_progress :
      (i : ℕ)
      → ((after o es v₀).threads i).pc ≡ spinning
      → ((j : ℕ) × (holds ((after o es v₀).threads j).pc ≡ true))
        ⊎ (((step o (i, attempt false) (after o es v₀)).threads i).pc ≡ guard)
  unfolding step perform
  spinning_progress i h = elim (Bool-cases (after o es v₀).locked.value) [
    | inl busy ↦ inl ((after-Inv lawful es v₀).owned busy)
    | inr free ↦
        let won = lawful.free_taken (after o es v₀).locked ((after o es v₀).threads i).local free in
        inr (rw (h, perform) (try_lock-guard o i false (after o es v₀) won))
  ]
