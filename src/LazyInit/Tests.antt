-- ===== src/LazyInit/Tests.antt =====
-- Runs of `get_data`, and the theorems at them.
use rust_atomics_and_locks.Base.{ℕ, ◌≡◌, ◌≢◌, ◌⊎◌, refl, true, List, [], ◌∷◌, ◌++◌, arith}
use rust_atomics_and_locks.Memory.{Covers}
use rust_atomics_and_locks.LazyInit.{
  done, Action, call, generate, exchange, discard, generate_data, after,
}
use rust_atomics_and_locks.LazyInit.Invariant.{own}
use rust_atomics_and_locks.LazyInit.Safety.{one_initialization, loser_drops, drops_its_own}

-- Both threads find null and allocate, and thread 1 loses.
abbrev race : List (ℕ × Action)
race = (0, call) ∷ (1, call) ∷ (1, generate) ∷ (0, generate) ∷ (0, exchange) ∷ (1, exchange) ∷ []

abbrev settled : List (ℕ × Action)
settled = race ++ (1, discard) ∷ []

winner_pointer : ((after settled).threads 1).pc ≡ done 2
unfolding after
winner_pointer = refl

data_read : ((after settled).boxes 2).content ≡ generate_data
unfolding after
data_read = refl

one_initialization_example :
    (2 ≡ (after settled).ptr.value)
    × ((after settled).live 2 ≡ true)
    × Covers ((after settled).threads 1).local.seen ((after settled).boxes 2).accesses
unfolding after
one_initialization_example = one_initialization settled 1 2 refl

loser_drops_example :
    (1 ≡ (after race).ptr.value) ⊎ ((i : ℕ) × (own ((after race).threads i).pc ≡ 1))
unfolding after
loser_drops_example = loser_drops race 1 refl

drops_its_own_example :
    ((after race).live 1 ≡ true)
    × (1 ≢ (after race).ptr.value)
    × (own ((after race).threads 0).pc ≢ 1)
unfolding after
drops_its_own_example = drops_its_own race 1 0 1 2 (omega arith) refl
