-- ===== src/Mutex/Invariant.antt =====
-- What holds between two steps of the threads that share a mutex, and that every step keeps it.
use rust_atomics_and_locks.Base.{
  ℕ, ◌≤◌, ◌≡◌, ◌≢◌, refl, true, false, inl, inr, ◌⊎◌, List, arith, Bool-cases, run_invariant, ◌==◌,
  ◌↔◌,
}
use rust_atomics_and_locks.Futex.{Futex}
use rust_atomics_and_locks.Mutex.{
  MutexOps, IsMutex, Stage, entering, spinning, retrying, contended, parking, locked, Pc, idle,
  acquiring, waiting, guard, loaded, waking, Mutex, Action, lock, proceed, wait, resume, spurious,
  deref, deref_mut, drop, wake_one, holds, settle, apply_all, goto, start, read, write, attempt,
  release, perform, step, after,
}

-- The views are compared at the accesses of thread `k`.
pub record Inv {T Q : Type 0} (top : ℕ) (v₀ : T) (s : Mutex T Q) : Type 0 where
  pub locked_by : (i : ℕ) → holds (s.threads i).pc ≡ true → s.state.value ≢ 0
  pub unique : (i j : ℕ) → holds (s.threads i).pc ≡ true → holds (s.threads j).pc ≡ true → i ≡ j
  pub owned : s.state.value ≢ 0 → (i : ℕ) × (holds (s.threads i).pc ≡ true)
  pub free_published : (k : ℕ) → s.state.value ≡ 0 → s.value.accesses k ≤ s.state.released k
  pub informed :
      (i k : ℕ) → holds (s.threads i).pc ≡ true → s.value.accesses k ≤ (s.threads i).local.seen k
  pub current : (i : ℕ) (v : T) → (s.threads i).pc ≡ loaded v → v ≡ s.value.content
  pub ranged : s.state.value ≤ top
  pub logged : s.value.content ≡ apply_all s.log v₀

start-Inv : {T : Type 0} (o : MutexOps) (f : Futex) (v : T) → Inv o.mark v (start o f v)
unfolding start
start-Inv o f v = record {
  locked_by = λ i h. absurd (cc);
  unique = λ i j h k. cc;
  owned = λ h. absurd (h refl);
  free_published = λ k h. omega arith;
  informed = λ i k h. omega arith;
  current = λ i v h. cc;
  ranged = omega arith;
  logged = refl;
}

Stage-split : (st : Stage) → (st ≡ locked) ⊎ (st ≢ locked)
Stage-split locked = inl refl
Stage-split entering = inr (λ e. cc)
Stage-split (spinning k) = inr (λ e. cc)
Stage-split retrying = inr (λ e. cc)
Stage-split contended = inr (λ e. cc)
Stage-split parking = inr (λ e. cc)

holds-settle : (T : Type 0) (st : Stage) → st ≢ locked → holds {T = T} (settle st) ≡ false
holds-settle T locked n = absurd (n refl)
holds-settle T entering n = refl
holds-settle T (spinning k) n = refl
holds-settle T retrying n = refl
holds-settle T contended n = refl
holds-settle T parking n = refl

module _ {T Q : Type 0} {top : ℕ} {v₀ : T} {s : Mutex T Q} (inv : Inv top v₀ s) where
  open inv use {locked_by, unique, owned, free_published, informed, current, ranged, logged}

  -- A move between two places that have no guard.
  goto-Inv :
      (i : ℕ) (p : Pc T) (q : Q)
      → holds (s.threads i).pc ≡ false
      → holds p ≡ false
      → Inv top v₀ (goto i p (record s { queue = q }))
  goto-Inv i p q out out' = record {
    locked_by = λ j h. ground (arith, locked_by j);
    unique = λ j k h h'. ground (arith, unique j k);
    owned = λ h. let (j, held) = owned h in (j, ground arith);
    free_published = free_published;
    informed = λ j k h. ground (arith, informed j k);
    current = λ j v h. ground (arith, current j v);
    ranged = ranged;
    logged = logged;
  }

  read-Inv : (i : ℕ) → (s.threads i).pc ≡ guard → Inv top v₀ (read i s)
  unfolding read
  read-Inv i at_guard = record {
    locked_by = λ j h. ground (arith, locked_by i, locked_by j);
    unique = λ j k h h'. ground (arith, unique i j, unique i k, unique j k);
    owned = λ h. (i, ground arith);
    free_published = λ k h. ground (arith, locked_by i);
    informed = λ j k h. ground (arith, unique i j, informed i k, informed j k);
    current = λ j v h. ground (arith, current j v);
    ranged = ranged;
    logged = logged;
  }

  write-Inv : (i : ℕ) (f : T → T) (v : T) → (s.threads i).pc ≡ loaded v → Inv top v₀ (write i f v s)
  unfolding write
  write-Inv i f v at_loaded = record {
    locked_by = λ j h. ground (arith, locked_by i, locked_by j);
    unique = λ j k h h'. ground (arith, unique i j, unique i k, unique j k);
    owned = λ h. (i, ground arith);
    free_published = λ k h. ground (arith, locked_by i);
    informed = λ j k h. ground (arith, unique i j, informed i k, informed j k);
    current = λ j w h. ground (arith, unique i j);
    ranged = ranged;
    logged = cc (current i v at_loaded, logged);
  }

module _ {T Q : Type 0} {o : MutexOps} (lawful : IsMutex o) {v₀ : T} {s : Mutex T Q}
    (inv : Inv o.mark v₀ s) where
  open lawful use {taken, acquired, refused, unchanged, freed, published}
  open inv use {locked_by, unique, owned, free_published, informed, current, ranged, logged}

  attempt_won :
      (i : ℕ) (st : Stage)
      → (o.advance st s.state (s.threads i).local).0 ≡ locked
      → Inv o.mark v₀ (attempt o i st s)
  unfolding attempt
  attempt_won i st won = record {
    locked_by = λ j h. fact.1;
    unique = λ j k h h'. ground (arith, fact, locked_by j, locked_by k);
    owned = λ h. (i, ground (arith, won));
    free_published = λ k h. absurd (fact.1 h);
    informed = λ j k h.
        ground
          (arith, fact, acquired st s.state (s.threads i).local k, free_published k, locked_by j);
    current = λ j v h. ground (arith, won, current j v);
    ranged = lawful.ranged st s.state (s.threads i).local ranged;
    logged = logged;
  }
    where
      fact : (s.state.value ≡ 0) × ((o.advance st s.state (s.threads i).local).1.value ≢ 0)
      fact = taken st s.state (s.threads i).local ranged won

  attempt_lost :
      (i : ℕ) (st : Stage)
      → holds (s.threads i).pc ≡ false
      → (o.advance st s.state (s.threads i).local).0 ≢ locked
      → Inv o.mark v₀ (attempt o i st s)
  unfolding attempt
  attempt_lost i st out lost = record {
    locked_by = λ j h. ground (arith, outside, fact, locked_by j);
    unique = λ j k h h'. ground (arith, outside, unique j k);
    owned = λ h. let (j, held) = owned (λ e. h (fact.1 e)) in (j, ground arith);
    free_published = λ k h.
        ground (arith, fact, unchanged st s.state (s.threads i).local k lost, free_published k);
    informed = λ j k h. ground (arith, outside, informed j k);
    current = λ j v h. ground (arith, outside, current j v);
    ranged = lawful.ranged st s.state (s.threads i).local ranged;
    logged = logged;
  }
    where
      fact : ((o.advance st s.state (s.threads i).local).1.value ≡ 0) ↔ (s.state.value ≡ 0)
      fact = refused st s.state (s.threads i).local lost

      outside : holds {T = T} (settle (o.advance st s.state (s.threads i).local).0) ≡ false
      outside = holds-settle T (o.advance st s.state (s.threads i).local).0 lost

  attempt-Inv :
      (i : ℕ) (st : Stage) → holds (s.threads i).pc ≡ false → Inv o.mark v₀ (attempt o i st s)
  attempt-Inv i st out = elim (Stage-split (o.advance st s.state (s.threads i).local).0) [
    | inl won ↦ attempt_won i st won
    | inr lost ↦ attempt_lost i st out lost
  ]

  release-Inv : (i : ℕ) → holds (s.threads i).pc ≡ true → Inv o.mark v₀ (release o i s)
  unfolding release
  release-Inv i held = record {
    locked_by = λ j h. ground (arith, unique i j);
    unique = λ j k h h'. ground (arith, unique i j, unique i k, unique j k);
    owned = λ h. absurd (h (freed s.state (s.threads i).local));
    free_published =
        λ k h. omega (arith, published s.state (s.threads i).local k, informed i k held);
    informed = λ j k h. ground (arith, unique i j, informed j k);
    current = λ j w h. ground (arith, current j w);
    ranged = omega (arith, freed s.state (s.threads i).local);
    logged = logged;
  }

module _ {T : Type 0} {o : MutexOps} (lawful : IsMutex o) (f : Futex) where
  perform-Inv :
      {v₀ : T} {s : Mutex T f.Queue}
      → Inv o.mark v₀ s
      → (i : ℕ) (p : Pc T) (e : Action T) → (s.threads i).pc ≡ p
      → Inv o.mark v₀ (perform o f i p e s)
  unfolding perform
  perform-Inv {s} inv i idle lock h = goto-Inv inv i (acquiring entering) s.queue (rw h) refl
  perform-Inv {s} inv i (acquiring parking) wait h = elim (Bool-cases (s.state.value == o.mark)) [
    | inl same ↦ rw same (goto-Inv inv i waiting (f.suspend i s.queue) (rw h) refl)
    | inr other ↦ rw other (goto-Inv inv i (acquiring contended) s.queue (rw h) refl)
  ]
  perform-Inv inv i (acquiring parking) _ h = inv
  perform-Inv inv i (acquiring st) proceed h = attempt-Inv lawful inv i st (rw h)
  perform-Inv {s} inv i waiting resume h = elim (Bool-cases (f.sleeps i s.queue)) [
    | inl asleep ↦ rw asleep inv
    | inr awake ↦ rw awake (goto-Inv inv i (acquiring contended) s.queue (rw h) refl)
  ]
  perform-Inv {s} inv i waiting spurious h =
      goto-Inv inv i (acquiring contended) (f.leave i s.queue) (rw h) refl
  perform-Inv inv i guard deref h = read-Inv inv i h
  perform-Inv inv i (loaded v) (deref_mut g) h = write-Inv inv i g v h
  perform-Inv inv i guard drop h = release-Inv lawful inv i (rw h)
  perform-Inv inv i (loaded v) drop h = release-Inv lawful inv i (rw h)
  perform-Inv {s} inv i waking wake_one h = goto-Inv inv i idle (f.wake_one s.queue) (rw h) refl
  perform-Inv inv i _ _ h = inv

  pub step-Inv :
      {v₀ : T} (e : ℕ × Action T) (s : Mutex T f.Queue)
      → Inv o.mark v₀ s
      → Inv o.mark v₀ (step o f e s)
  unfolding step
  step-Inv (i, e) s inv = perform-Inv inv i (s.threads i).pc e refl

  pub after-Inv : (es : List (ℕ × Action T)) (v₀ : T) → Inv o.mark v₀ (after o f es v₀)
  unfolding after
  after-Inv es v₀ =
      run_invariant (step o f) (Inv o.mark v₀) step-Inv es (start o f v₀) (start-Inv o f v₀)
