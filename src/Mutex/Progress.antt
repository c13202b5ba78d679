-- ===== src/Mutex/Progress.antt =====
-- Every step of the threads keeps what `Mutex.Wakeup` states.
use rust_atomics_and_locks.Base.{
  ℕ, Bool, put, ◌≡◌, ◌≢◌, refl, true, false, inl, inr, List, arith, Bool-cases, run_invariant, ◌==◌,
  ==_iff,
}
use rust_atomics_and_locks.Futex.{Futex, IsFutex}
use rust_atomics_and_locks.Mutex.{
  MutexOps, IsMutex, Stage, entering, spinning, retrying, contended, parking, locked, Pc, idle,
  acquiring, waiting, guard, loaded, waking, Thread, Mutex, Action, lock, proceed, wait, resume,
  spurious, deref, deref_mut, drop, wake_one, holds, start, read, write, attempt, release, park,
  resume_wait, perform, step, after,
}
use rust_atomics_and_locks.Mutex.Wakeup.{
  rouses, Wakeup, Wakeful, awake, keep, suspend-Wakeup, leave-Wakeup, wake_one-Wakeup,
}

module _ {T : Type 0} {o : MutexOps} {f : Futex} (lawful : IsMutex o) (kernel : IsFutex f)
    (s : Mutex T f.Queue) (h : Wakeful o f s) where
  rouses-marks :
      (i : ℕ) (b : Bool) (st : Stage)
      → rouses {T = T} b (acquiring st) ≡ true
      → (o.advance st s.state (s.threads i).local).1.value ≡ o.mark
  rouses-marks i b contended e = lawful.marks s.state (s.threads i).local
  rouses-marks i b entering e = cc
  rouses-marks i b (spinning k) e = cc
  rouses-marks i b retrying e = cc
  rouses-marks i b parking e = cc
  rouses-marks i b locked e = cc

  attempt-Wakeful :
      (i : ℕ) (st : Stage) → (s.threads i).pc ≡ acquiring st → Wakeful o f (attempt o i st s)
  unfolding attempt
  attempt-Wakeful i st at_st =
      keep h i _ _ (awake h i (λ w. cc)) (λ e. inl (rouses-marks i (f.sleeps i s.queue) st (cc)))
        (λ e. inl (lawful.keeps_mark st s.state (s.threads i).local e))

  release-Wakeful : (i : ℕ) → holds (s.threads i).pc ≡ true → Wakeful o f (release o i s)
  unfolding release
  release-Wakeful i held =
      keep h i _ _ (awake h i (λ w. ground arith)) (λ e. absurd (ground arith))
        (λ e. inr (ground (arith, lawful.wakes s.state (s.threads i).local e)))

  -- A step of a thread that is awake, neither rouses before it, nor touches `state`.
  quiet-Wakeful :
      (i : ℕ) (t : Thread T)
      → (s.threads i).pc ≢ waiting
      → ((b : Bool) → rouses b (s.threads i).pc ≡ false)
      → Wakeup o f s.queue s.state.value (put s.threads i t)
  quiet-Wakeful i t n quiet =
      keep h i _ t (awake h i n) (λ e. absurd (cc (quiet (f.sleeps i s.queue)))) (λ e. inl e)

  park-Wakeful : (i : ℕ) → (s.threads i).pc ≡ acquiring parking → Wakeful o f (park o f i s)
  unfolding park
  park-Wakeful i at_parking = elim (Bool-cases (s.state.value == o.mark)) [
    | inl same ↦ rw same (suspend-Wakeup kernel h i _ refl ((==_iff _ _).0 same))
    | inr other ↦ rw other (quiet-Wakeful i _ (λ w. cc) (λ b. rw at_parking))
  ]

  resume-Wakeful : (i : ℕ) → Wakeful o f (resume_wait o f i s)
  unfolding resume_wait
  resume-Wakeful i = elim (Bool-cases (f.sleeps i s.queue)) [
    | inl asleep ↦ rw asleep h
    | inr up ↦ rw up (keep h i _ _ up (λ e. inr refl) (λ e. inl e))
  ]

module _ {T : Type 0} {o : MutexOps} {f : Futex} (lawful : IsMutex o) (kernel : IsFutex f) where
  perform-Wakeful :
      (s : Mutex T f.Queue)
      → Wakeful o f s
      → (i : ℕ) (p : Pc T) (e : Action T) → (s.threads i).pc ≡ p
      → Wakeful o f (perform o f i p e s)
  unfolding perform read write
  perform-Wakeful s h i idle lock at = quiet-Wakeful lawful kernel s h i _ (λ w. cc) (λ b. rw at)
  perform-Wakeful s h i (acquiring parking) wait at = park-Wakeful lawful kernel s h i at
  perform-Wakeful s h i (acquiring parking) _ at = h
  perform-Wakeful s h i (acquiring st) proceed at = attempt-Wakeful lawful kernel s h i st at
  perform-Wakeful s h i waiting resume at = resume-Wakeful lawful kernel s h i
  perform-Wakeful s h i waiting spurious at = leave-Wakeup kernel h i _ refl
  perform-Wakeful s h i guard deref at = quiet-Wakeful lawful kernel s h i _ (λ w. cc) (λ b. rw at)
  perform-Wakeful s h i (loaded v) (deref_mut g) at =
      quiet-Wakeful lawful kernel s h i _ (λ w. cc) (λ b. rw at)
  perform-Wakeful s h i guard drop at = release-Wakeful lawful kernel s h i (rw at)
  perform-Wakeful s h i (loaded v) drop at = release-Wakeful lawful kernel s h i (rw at)
  perform-Wakeful s h i waking wake_one at = wake_one-Wakeup kernel h i _ at
  perform-Wakeful s h i _ _ at = h

  step-Wakeful :
      (e : ℕ × Action T) (s : Mutex T f.Queue) → Wakeful o f s → Wakeful o f (step o f e s)
  unfolding step
  step-Wakeful (i, e) s h = perform-Wakeful s h i (s.threads i).pc e refl

  start-Wakeful : (v : T) → Wakeful o f (start o f v)
  unfolding start
  start-Wakeful v = record {
    sleepers_wait = λ i a. cc (kernel.sleeps-nobody i);
    roused = λ i a. absurd (cc (kernel.sleeps-nobody i));
  }

  pub after-Wakeful : (es : List (ℕ × Action T)) (v₀ : T) → Wakeful o f (after o f es v₀)
  unfolding after
  after-Wakeful es v₀ =
      run_invariant (step o f) (Wakeful o f) step-Wakeful es (start o f v₀) (start-Wakeful v₀)
