-- ===== src/Mutex/Wakeup.antt =====
-- Why no wake-up of a mutex is lost: while a thread sleeps in the futex, either `state` has the
-- mark, so that the unlocking thread will wake one, or some thread is on its way to wake another
-- one or to set the mark.
use rust_atomics_and_locks.Base.{
  ℕ, ◌≡◌, ◌≢◌, refl, Bool, true, false, not, inl, inr, ◌⊎◌, arith, put, put_self, Bool-cases, ◌==◌,
}
use rust_atomics_and_locks.Futex.{Futex, IsFutex}
use rust_atomics_and_locks.Mutex.{
  MutexOps, contended, Pc, acquiring, waiting, waking, Thread, Mutex,
}

-- A thread that will wake another one or set the mark; a waiting one does so if it was woken.
abbrev pub rouses : {T : Type 0} → Bool → Pc T → Bool
rouses asleep (acquiring contended) = true
rouses asleep waiting = not asleep
rouses asleep waking = true
rouses asleep _ = false

module _ {T : Type 0} (o : MutexOps) (f : Futex) where
  pub record Wakeup (q : f.Queue) (state : ℕ) (threads : ℕ → Thread T) : Type 0 where
    pub sleepers_wait : (i : ℕ) → f.sleeps i q ≡ true → (threads i).pc ≡ waiting
    pub roused :
        (i : ℕ)
        → f.sleeps i q ≡ true
        → (state ≡ o.mark) ⊎ ((j : ℕ) × (rouses (f.sleeps j q) (threads j).pc ≡ true))

  abbrev pub Wakeful : Mutex T f.Queue → Type 0
  Wakeful s = Wakeup s.queue s.state.value s.threads

module _ {T : Type 0} {o : MutexOps} {f : Futex} {q : f.Queue} {state : ℕ} {threads : ℕ → Thread T}
    (h : Wakeup o f q state threads) where
  open h use {sleepers_wait, roused}

  pub awake : (i : ℕ) → (threads i).pc ≢ waiting → f.sleeps i q ≡ false
  awake i n = elim (Bool-cases (f.sleeps i q)) [
    | inl e ↦ absurd (n (sleepers_wait i e))
    | inr e ↦ e
  ]

  -- A move of an awake thread that leaves the queue alone.
  pub keep :
      (i state' : ℕ) (t : Thread T)
      → f.sleeps i q ≡ false
      → (rouses (f.sleeps i q) (threads i).pc ≡ true
          → (state' ≡ o.mark) ⊎ (rouses (f.sleeps i q) t.pc ≡ true))
      → (state ≡ o.mark → (state' ≡ o.mark) ⊎ (rouses (f.sleeps i q) t.pc ≡ true))
      → Wakeup o f q state' (put threads i t)
  keep i state' t up hands_on marks = record {
    sleepers_wait = λ j a. ground (arith, sleepers_wait j);
    roused = λ j a. elim (roused j a) [
      | inl e ↦ by_mover (marks e)
      | inr (k, r) ↦ elim (Bool-cases (i == k)) [
        | inl same ↦ by_mover (hands_on (ground (arith, r)))
        | inr other ↦ inr (k, ground (arith, r))
      ]
    ];
  }
    where
      by_mover :
          (state' ≡ o.mark) ⊎ (rouses (f.sleeps i q) t.pc ≡ true)
          → (state' ≡ o.mark) ⊎ ((k : ℕ) × (rouses (f.sleeps k q) (put threads i t k).pc ≡ true))
      by_mover (inl e) = inl e
      by_mover (inr r) = inr (i, rw (put_self threads i t) r)

module _ {T : Type 0} {o : MutexOps} {f : Futex} (kernel : IsFutex f) {q : f.Queue} {state : ℕ}
    {threads : ℕ → Thread T} (h : Wakeup o f q state threads) where
  open h use {sleepers_wait, roused}
  open kernel use {sleeps-suspend, sleeps-leave, wake_one_only, wake_one_wakes}

  pub suspend-Wakeup :
      (i : ℕ) (t : Thread T)
      → t.pc ≡ waiting
      → state ≡ o.mark
      → Wakeup o f (f.suspend i q) state (put threads i t)
  suspend-Wakeup i t w marked = record {
    sleepers_wait = λ j a. ground (arith, sleepers_wait j, sleeps-suspend i j q);
    roused = λ j a. inl marked;
  }

  pub leave-Wakeup :
      (i : ℕ) (t : Thread T)
      → t.pc ≡ acquiring contended
      → Wakeup o f (f.leave i q) state (put threads i t)
  leave-Wakeup i t c = record {
    sleepers_wait = λ j a. ground (arith, sleepers_wait j, sleeps-leave i j q);
    roused = λ j a. inr (i, rw (put_self threads i t, c) refl);
  }

  pub wake_one-Wakeup :
      (i : ℕ) (t : Thread T)
      → (threads i).pc ≡ waking
      → Wakeup o f (f.wake_one q) state (put threads i t)
  wake_one-Wakeup i t w = record {
    sleepers_wait = λ j a. ground (arith, sleepers_wait j, wake_one_only j q);
    roused = λ j a.
        let (k, was, now) = wake_one_wakes j q (wake_one_only j q a) in
        inr (k, ground (arith, sleepers_wait k));
  }
