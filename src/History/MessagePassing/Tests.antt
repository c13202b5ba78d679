-- ===== src/History/MessagePassing/Tests.antt =====
-- Runs of the message passing, and the theorem at one.
use rust_atomics_and_locks.Base.{ℕ, ◌≡◌, refl, List, [], ◌∷◌}
use rust_atomics_and_locks.History.MessagePassing.{
  waiting, Action, store_data, store_ready, load_ready, load_data, after,
}
use rust_atomics_and_locks.History.MessagePassing.Safety.{prints_the_data}

-- The main thread finds an old `false` after the store of `true`, and then the `true`; it asks for
-- the old `DATA` in vain.
abbrev passed : List Action
passed = store_data ∷ store_ready ∷ load_ready 0 ∷ load_ready 1 ∷ load_data 0 ∷ load_data 1 ∷ []

still_waiting : (after (store_data ∷ store_ready ∷ load_ready 0 ∷ [])).main ≡ waiting
unfolding after
still_waiting = refl

prints_the_data_example : ◌≡◌ {A = ℕ} 123 123
unfolding after
prints_the_data_example = prints_the_data passed 123 refl
