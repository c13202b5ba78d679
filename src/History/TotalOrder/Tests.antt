-- ===== src/History/TotalOrder/Tests.antt =====
-- Runs of the two threads, and the theorem at one.
use rust_atomics_and_locks.Base.{ℕ, ◌+◌, ◌≤◌, ◌≡◌, refl, List, [], ◌∷◌}
use rust_atomics_and_locks.History.TotalOrder.{Action, set, push, test, skipped, after}
use rust_atomics_and_locks.History.TotalOrder.Safety.{in_body, one_pushes}

-- Thread 1 asks for the old value of `A` in vain, and then finds it set.
abbrev a_first : List (ℕ × Action)
a_first = (0, set) ∷ (0, test 0) ∷ (1, set) ∷ (1, test 0) ∷ (1, test 1) ∷ (0, push) ∷ []

b_skips : ((after a_first).threads 1).pc ≡ skipped
unfolding after
b_skips = refl

one_pushes_example :
    (in_body ((after a_first).threads 0).pc + in_body ((after a_first).threads 1).pc ≤ 1)
    × ((after a_first).length ≤ 1)
one_pushes_example = one_pushes a_first
