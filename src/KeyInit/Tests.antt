-- ===== src/KeyInit/Tests.antt =====
-- A run of `get_key`, and the theorem at it.
use rust_atomics_and_locks.Base.{ℕ, ◌+◌, ◌≡◌, ◌≢◌, refl, List, [], ◌∷◌, arith}
use rust_atomics_and_locks.KeyInit.{Action, call, exchange, returned, generate_random_key, after}
use rust_atomics_and_locks.KeyInit.Safety.{one_key}

-- Both threads find 0, and thread 1 loses.
abbrev race : List (ℕ × Action)
race = (0, call) ∷ (1, call) ∷ (0, exchange) ∷ (1, exchange) ∷ []

-- The key of the source.
source_key : ((after generate_random_key race).threads 1).pc ≡ returned 42
unfolding after
source_key = refl

-- Each thread generates a key of its own.
abbrev own_key : ℕ → ℕ
own_key i = i + 7

own_key_some : (i : ℕ) → own_key i ≢ 0
own_key_some i h = omega (arith, h)

one_key_example : (7 ≡ (after own_key race).key.value) × (◌≢◌ {A = ℕ} 7 0)
unfolding after
one_key_example = one_key own_key own_key_some race 1 7 refl
