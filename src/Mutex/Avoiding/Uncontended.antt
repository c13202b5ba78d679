-- ===== src/Mutex/Avoiding/Uncontended.antt =====
-- examples/09-01-01_avoiding-system-call.rs: what the exchange from 0 to 1 is there for.
use rust_atomics_and_locks.Base.{
  ℕ, ◌≡◌, refl, Bool, true, false, if◌then◌else◌, List, [], ◌∷◌, map, arith, run,
}
use rust_atomics_and_locks.Futex.{Futex}
use rust_atomics_and_locks.Mutex.{
  entering, Pc, idle, acquiring, guard, loaded, parking, contended, Mutex, Action, lock, proceed,
  deref, deref_mut, drop, holds, start, perform, step, after,
}
use rust_atomics_and_locks.Mutex.Avoiding.{mutex_ops}

-- The places from which no system call is made, nor can be made before another place is reached.
abbrev pub calm : {T : Type 0} → Pc T → Bool
calm idle = true
calm (acquiring entering) = true
calm guard = true
calm (loaded v) = true
calm _ = false

record Alone {T Q : Type 0} (i : ℕ) (s : Mutex T Q) : Type 0 where
  at_ease : calm (s.threads i).pc ≡ true
  exact : s.state.value ≡ (if holds (s.threads i).pc then 1 else 0)

module _ {T : Type 0} (f : Futex) (i : ℕ) where
  perform-Alone :
      (s : Mutex T f.Queue) (p : Pc T) (e : Action T)
      → (s.threads i).pc ≡ p
      → Alone i s
      → Alone i (perform mutex_ops f i p e s)
  unfolding perform mutex_ops
  perform-Alone s idle lock h a = ground arith
  perform-Alone s (acquiring parking) e h a = absurd (cc a.at_ease)
  perform-Alone s (acquiring contended) e h a = absurd (cc a.at_ease)
  perform-Alone s (acquiring entering) proceed h a = ground arith
  perform-Alone s guard deref h a = ground arith
  perform-Alone s (loaded v) (deref_mut g) h a = ground arith
  perform-Alone s guard drop h a = ground arith
  perform-Alone s (loaded v) drop h a = ground arith
  perform-Alone s _ _ h a = ground arith

  run-Alone :
      (es : List (Action T)) (s : Mutex T f.Queue)
      → Alone i s
      → Alone i (run (step mutex_ops f) (map (λ e. (i, e)) es) s)
  unfolding run step
  run-Alone [] s a = a
  run-Alone (e ∷ es) s a =
      run-Alone es (step mutex_ops f (i, e) s) (perform-Alone s (s.threads i).pc e refl a)

  start-Alone : (v₀ : T) → Alone i (start mutex_ops f v₀)
  unfolding start
  start-Alone v₀ = record { at_ease = refl; exact = refl }

  -- A thread that has the mutex to itself never comes to a call of `wait` or of `wake_one`,
  -- whatever it does with the mutex and however often.
  pub uncontended_no_system_call :
      (es : List (Action T)) (v₀ : T)
      → calm ((after mutex_ops f (map (λ e. (i, e)) es) v₀).threads i).pc ≡ true
  unfolding after
  uncontended_no_system_call es v₀ = (run-Alone es (start mutex_ops f v₀) (start-Alone v₀)).at_ease
