-- ===== src/Arc/Weak/Tests.antt =====
-- Runs of the `Arc` with weak pointers, and the theorems at them.
use rust_atomics_and_locks.Base.{
  ℕ, zero, suc, ◌+◌, ◌≤◌, ◌<◌, ◌≡◌, ◌≢◌, refl, false, List, [], ◌∷◌, ◌++◌, arith, sum,
}
use rust_atomics_and_locks.Arc.Word.{modulus}
use rust_atomics_and_locks.Arc.Weak.{
  idle, panicked, Action, clone, count_data, downgrade, upgrade, count_alloc, drop, clear,
  drop_inner, drop_weak, free, get_mut, deref, exchange, give_weak, present, after,
}
use rust_atomics_and_locks.Arc.Weak.Counting.{alloc_owed, data_owed}
use rust_atomics_and_locks.Arc.Weak.Safety.{
  both_counts_exact, arc_keeps_data, weak_keeps_box, upgrade_finds_data, both_dropped_at_most_once,
  data_dropped_with_last_arc, box_dropped_with_last_handle, weak_get_mut_exclusive, assertion_holds,
}

-- The test of the source up to the exchange of `y.upgrade()`, with one weak pointer.
abbrev upgrading_it : List (ℕ × Action ℕ)
upgrading_it = (0, downgrade) ∷ (0, give_weak 1) ∷ (1, upgrade) ∷ (1, exchange false) ∷ []

-- Then both `Arc`s are dropped.
abbrev arcs_gone : List (ℕ × Action ℕ)
arcs_gone =
    upgrading_it
    ++ (1, count_alloc)
      ∷ (1, deref)
      ∷ (1, drop)
      ∷ (1, drop_inner)
      ∷ (0, drop)
      ∷ (0, clear)
      ∷ (0, drop_inner)
      ∷ []

abbrev no_upgrade : List (ℕ × Action ℕ)
no_upgrade = arcs_gone ++ (1, upgrade) ∷ []

abbrev all_gone : List (ℕ × Action ℕ)
all_gone = no_upgrade ++ (1, drop_weak) ∷ (1, free) ∷ []

abbrev borrowed : List (ℕ × Action ℕ)
borrowed = (0, clone) ∷ (0, count_data) ∷ (0, drop) ∷ (0, drop_inner) ∷ (0, get_mut) ∷ []

-- `assert!(z.upgrade().is_none())`
upgrade_of_gone : ((after 2 no_upgrade 5).threads 1).pc ≡ idle
unfolding after
upgrade_of_gone = refl

both_counts_exact_example :
    ((after 2 upgrading_it 5).alloc_ref_count.value
      ≡ sum alloc_owed 2 (after 2 upgrading_it 5).threads)
    × ((after 2 upgrading_it 5).data_ref_count.value
        ≡ sum data_owed 2 (after 2 upgrading_it 5).threads)
    × ((after 2 upgrading_it 5).alloc_ref_count.value + 1 < modulus)
    × ((after 2 upgrading_it 5).data_ref_count.value + 1 < modulus)
both_counts_exact_example = both_counts_exact 2 (omega arith) (omega arith) upgrading_it 5

arc_keeps_data_example :
    (present (after 2 upgrading_it 5).content.content ≡ 1)
    × ((after 2 upgrading_it 5).dropped ≡ 0)
    × ((after 2 upgrading_it 5).freed ≡ 0)
unfolding after
arc_keeps_data_example =
    arc_keeps_data 2 (omega arith) (omega arith) upgrading_it 5 0 (omega arith) (omega arith)

weak_keeps_box_example : (after 2 arcs_gone 5).freed ≡ 0
unfolding after
weak_keeps_box_example =
    weak_keeps_box 2 (omega arith) (omega arith) arcs_gone 5 1 (omega arith) (omega arith)

upgrade_finds_data_example :
    (present (after 2 upgrading_it 5).content.content ≡ 1) × ((after 2 upgrading_it 5).dropped ≡ 0)
unfolding after
upgrade_finds_data_example =
    upgrade_finds_data 2 (omega arith) (omega arith) upgrading_it 5 1 (omega arith) refl

both_dropped_at_most_once_example :
    ((after 2 all_gone 5).dropped ≤ 1) × ((after 2 all_gone 5).freed ≤ 1)
both_dropped_at_most_once_example =
    both_dropped_at_most_once 2 (omega arith) (omega arith) all_gone 5

no_arcs :
    (i : ℕ)
    → i < 2
    → (((after 2 arcs_gone 5).threads i).arcs ≡ 0) × (((after 2 arcs_gone 5).threads i).pc ≡ idle)
unfolding after
no_arcs zero h = (refl, refl)
no_arcs (suc zero) h = (refl, refl)
no_arcs (suc (suc i)) h = absurd (omega arith)

data_dropped_with_last_arc_example : (after 2 arcs_gone 5).dropped ≡ 1
data_dropped_with_last_arc_example =
    data_dropped_with_last_arc 2 (omega arith) (omega arith) arcs_gone 5 no_arcs

no_handles :
    (i : ℕ)
    → i < 2
    → (((after 2 all_gone 5).threads i).arcs ≡ 0)
      × (((after 2 all_gone 5).threads i).weaks ≡ 0)
      × (((after 2 all_gone 5).threads i).pc ≡ idle)
unfolding after
no_handles zero h = (refl, refl, refl)
no_handles (suc zero) h = (refl, refl, refl)
no_handles (suc (suc i)) h = absurd (omega arith)

box_dropped_with_last_handle_example : (after 2 all_gone 5).freed ≡ 1
box_dropped_with_last_handle_example =
    box_dropped_with_last_handle 2 (omega arith) (omega arith) all_gone 5 no_handles

weak_get_mut_exclusive_example :
    (((after 2 borrowed 5).threads 0).arcs ≡ 1)
    × (((after 2 borrowed 5).threads 1).arcs ≡ 0)
    × (((after 2 borrowed 5).threads 1).weaks ≡ 0)
unfolding after
weak_get_mut_exclusive_example =
    weak_get_mut_exclusive 2 (omega arith) (omega arith) borrowed 5 0 1 (omega arith) (omega arith)
      (omega arith) refl

assertion_holds_example : ((after 2 upgrading_it 5).threads 1).pc ≢ panicked
assertion_holds_example =
    assertion_holds 2 (omega arith) (omega arith) upgrading_it 5 1 (omega arith)
