-- ===== src/Base/Run.antt =====
-- Executions of a machine: a step function over a list of events, and the rule of invariants.
use mathlib.Core.List.{List, [], ◌∷◌}

module _ {S E : Type 0} (step : E → S → S) where
  unfoldable pub run : List E → S → S
  run [] s = s
  run (e ∷ es) s = run es (step e s)

  -- What every event keeps, every execution keeps.
  pub run_invariant {ℓ} :
      (P : S → Type ℓ)
      → ((e : E) (s : S) → P s → P (step e s))
      → (es : List E) (s : S) → P s
      → P (run es s)
  unfolding run
  run_invariant P keep [] s h = h
  run_invariant P keep (e ∷ es) s h = run_invariant P keep es (step e s) (keep e s h)
