-- ===== src/KeyInit/Safety.antt =====
-- What `get_key` of examples/02-03-02_lazy-initialization.rs promises.
use rust_atomics_and_locks.Base.{ℕ, ◌≡◌, ◌≢◌, refl, List, arith, run_invariant}
use rust_atomics_and_locks.KeyInit.{
  Pc, idle, exchanging, returned, Key, Action, call, exchange, start, load_key, exchange_key,
  perform, step, after,
}

record Inv (s : Key) : Type 0 where
  agreed : (i k : ℕ) → (s.threads i).pc ≡ returned k → (k ≡ s.key.value) × (k ≢ 0)
  drawn : (i k : ℕ) → (s.threads i).pc ≡ exchanging k → k ≢ 0

start-Inv : Inv start
unfolding start
start-Inv = record { agreed = λ i k h. absurd (cc); drawn = λ i k h. absurd (cc) }

module _ (draw : ℕ → ℕ) (some : (i : ℕ) → draw i ≢ 0) where
  module _ (i : ℕ) (s : Key) (inv : Inv s) where
    load_key-Inv : Inv (load_key (draw i) i s)
    unfolding load_key
    load_key-Inv = record {
      agreed = λ j k h. ground (arith, inv.agreed j k);
      drawn = λ j k h. ground (arith, inv.drawn j k, some i);
    }

    exchange_key-Inv : (m : ℕ) → (s.threads i).pc ≡ exchanging m → Inv (exchange_key i m s)
    unfolding exchange_key
    exchange_key-Inv m at = record {
      agreed = λ j k h. ground (arith, inv.agreed j k, inv.drawn i m);
      drawn = λ j k h. ground (arith, inv.drawn j k);
    }

    perform-Inv : (p : Pc) (e : Action) → (s.threads i).pc ≡ p → Inv (perform draw i p e s)
    unfolding perform
    perform-Inv idle call at = load_key-Inv
    perform-Inv (returned k) call at = load_key-Inv
    perform-Inv (exchanging m) exchange at = exchange_key-Inv m at
    perform-Inv _ _ at = inv

  step-Inv : (e : ℕ × Action) (s : Key) → Inv s → Inv (step draw e s)
  unfolding step
  step-Inv (i, e) s inv = perform-Inv i s inv (s.threads i).pc e refl

  -- Whatever keys the threads generate, of which none is 0, and whoever wins, every call of
  -- `get_key` that returns gives the one key that is stored, which is not 0.
  pub one_key :
      (es : List (ℕ × Action)) (i k : ℕ)
      → ((after draw es).threads i).pc ≡ returned k
      → (k ≡ (after draw es).key.value) × (k ≢ 0)
  unfolding after
  one_key es i k at = (run_invariant (step draw) Inv step-Inv es start start-Inv).agreed i k at
