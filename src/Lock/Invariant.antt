-- ===== src/Lock/Invariant.antt =====
-- What holds between two steps of the threads that share a lock, and that every step keeps it.
use rust_atomics_and_locks.Base.{
  ℕ, ◌≤◌, ◌≡◌, refl, Bool, true, false, inl, inr, List, arith, put_self, Bool-cases, run_invariant,
}
use rust_atomics_and_locks.Lock.{
  LockOps, IsLock, Pc, idle, spinning, guard, loaded, SpinLock, Action, attempt, deref, deref_mut,
  drop, give, holds, is_idle, apply_all, start, try_lock, read, write, release, hand_over, perform,
  step, after,
}

-- The views are compared at the accesses of thread `k`.
pub record Inv {T : Type 0} (v₀ : T) (s : SpinLock T) : Type 0 where
  pub locked_by : (i : ℕ) → holds (s.threads i).pc ≡ true → s.locked.value ≡ true
  pub unique : (i j : ℕ) → holds (s.threads i).pc ≡ true → holds (s.threads j).pc ≡ true → i ≡ j
  pub owned : s.locked.value ≡ true → (i : ℕ) × (holds (s.threads i).pc ≡ true)
  pub free_published : (k : ℕ) → s.locked.value ≡ false → s.value.accesses k ≤ s.locked.released k
  pub informed :
      (i k : ℕ) → holds (s.threads i).pc ≡ true → s.value.accesses k ≤ (s.threads i).local.seen k
  pub current : (i : ℕ) (v : T) → (s.threads i).pc ≡ loaded v → v ≡ s.value.content
  pub logged : s.value.content ≡ apply_all s.log v₀

start-Inv : {T : Type 0} (v : T) → Inv v (start v)
unfolding start
start-Inv v = record {
  locked_by = λ i h. cc;
  unique = λ i j h k. cc;
  owned = λ h. absurd (cc);
  free_published = λ k h. omega arith;
  informed = λ i k h. omega arith;
  current = λ i v h. cc;
  logged = refl;
}

module _ {T : Type 0} {o : LockOps} (lawful : IsLock o) {v₀ : T} {s : SpinLock T}
    (inv : Inv v₀ s) where
  open lawful use {taken, acquired, refused, unchanged, freed, published}
  open inv use {locked_by, unique, owned, free_published, informed, current, logged}

  owned-try_lock :
      (i : ℕ) (b : Bool)
      → holds (s.threads i).pc ≡ false
      → (try_lock o i b s).locked.value ≡ true
      → (j : ℕ) × (holds ((try_lock o i b s).threads j).pc ≡ true)
  unfolding try_lock
  owned-try_lock i b out h = elim (Bool-cases (o.attempt b s.locked (s.threads i).local).0) [
    | inl won ↦ (i, ground (arith, put_self s.threads i))
    | inr lost ↦
        let (j, held) = owned (cc (refused b s.locked (s.threads i).local lost)) in
        (j, ground arith)
  ]

  try_lock-Inv : (i : ℕ) (b : Bool) → holds (s.threads i).pc ≡ false → Inv v₀ (try_lock o i b s)
  unfolding try_lock
  try_lock-Inv i b out = record {
    locked_by = λ j h. ground (arith, win, lose, locked_by j);
    unique = λ j k h h'. ground (arith, win, locked_by j, locked_by k, unique j k);
    owned = owned-try_lock i b out;
    free_published = λ k h.
        ground (arith, win, lose, unchanged b s.locked (s.threads i).local k, free_published k);
    informed = λ j k h.
        ground
          (arith, win, acquired b s.locked (s.threads i).local k, free_published k, informed j k);
    current = λ j v h. ground (arith, current j v);
    logged = logged;
  }
    where
      win :
          (o.attempt b s.locked (s.threads i).local).0 ≡ true
          → (s.locked.value ≡ false) × ((o.attempt b s.locked (s.threads i).local).1.value ≡ true)
      win = taken b s.locked (s.threads i).local

      lose :
          (o.attempt b s.locked (s.threads i).local).0 ≡ false
          → (o.attempt b s.locked (s.threads i).local).1.value ≡ s.locked.value
      lose = refused b s.locked (s.threads i).local

  read-Inv : (i : ℕ) → (s.threads i).pc ≡ guard → Inv v₀ (read o i s)
  unfolding read
  read-Inv i at_guard = record {
    locked_by = λ j h. ground (arith, locked_by i, locked_by j);
    unique = λ j k h h'. ground (arith, unique i j, unique i k, unique j k);
    owned = λ h. (i, ground arith);
    free_published = λ k h. ground (arith, locked_by i);
    informed = λ j k h. ground (arith, unique i j, informed i k, informed j k);
    current = λ j v h. ground (arith, current j v);
    logged = logged;
  }

  write-Inv : (i : ℕ) (f : T → T) (v : T) → (s.threads i).pc ≡ loaded v → Inv v₀ (write o i f v s)
  unfolding write
  write-Inv i f v at_loaded = record {
    locked_by = λ j h. ground (arith, locked_by i, locked_by j);
    unique = λ j k h h'. ground (arith, unique i j, unique i k, unique j k);
    owned = λ h. (i, ground arith);
    free_published = λ k h. ground (arith, locked_by i);
    informed = λ j k h. ground (arith, unique i j, informed i k, informed j k);
    current = λ j w h. ground (arith, unique i j);
    logged = cc (current i v at_loaded, logged);
  }

  release-Inv : (i : ℕ) → holds (s.threads i).pc ≡ true → Inv v₀ (release o i s)
  unfolding release
  release-Inv i held = record {
    locked_by = λ j h. ground (arith, unique i j);
    unique = λ j k h h'. ground (arith, unique i j, unique i k, unique j k);
    owned = λ h. absurd (cc (freed s.locked (s.threads i).local));
    free_published =
        λ k h. omega (arith, published s.locked (s.threads i).local k, informed i k held);
    informed = λ j k h. ground (arith, unique i j, informed j k);
    current = λ j w h. ground (arith, current j w);
    logged = logged;
  }

  hand_over-Inv :
      (i j : ℕ)
      → (s.threads i).pc ≡ guard
      → is_idle (s.threads j).pc ≡ true
      → Inv v₀ (hand_over o i j s)
  unfolding hand_over
  hand_over-Inv i j at out = record {
    locked_by = λ k h. ground (arith, locked_by i, locked_by k);
    unique = λ k m h h'. ground (arith, unique i k, unique i m);
    owned = λ h. (j, ground arith);
    free_published = λ k h. ground (arith, locked_by i);
    informed = λ m k h. ground (arith, unique i m, informed i k, informed m k);
    current = λ m v h. ground (arith, current m v);
    logged = logged;
  }

  perform-Inv :
      (i : ℕ) (p : Pc T) (e : Action T) → (s.threads i).pc ≡ p → Inv v₀ (perform o i p e s)
  unfolding perform
  perform-Inv i idle (attempt b) h = try_lock-Inv i b (rw h)
  perform-Inv i spinning (attempt b) h = try_lock-Inv i b (rw h)
  perform-Inv i guard deref h = read-Inv i h
  perform-Inv i (loaded v) (deref_mut f) h = write-Inv i f v h
  perform-Inv i guard drop h = release-Inv i (rw h)
  perform-Inv i (loaded v) drop h = release-Inv i (rw h)
  perform-Inv i guard (give j) h = elim (Bool-cases (is_idle (s.threads j).pc)) [
    | inl e ↦ rw e (hand_over-Inv i j h e)
    | inr e ↦ rw e inv
  ]
  perform-Inv i _ _ h = inv

module _ {T : Type 0} {o : LockOps} (lawful : IsLock o) where
  step-Inv : {v₀ : T} (e : ℕ × Action T) (s : SpinLock T) → Inv v₀ s → Inv v₀ (step o e s)
  unfolding step
  step-Inv (i, e) s inv = perform-Inv lawful inv i (s.threads i).pc e refl

  pub after-Inv : (es : List (ℕ × Action T)) (v₀ : T) → Inv v₀ (after o es v₀)
  unfolding after
  after-Inv es v₀ = run_invariant (step o) (Inv v₀) step-Inv es (start v₀) (start-Inv v₀)
