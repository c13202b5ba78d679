-- ===== src/Arc/Basic/Tests.antt =====
-- Runs of the `Arc`, and the theorems at them.
use rust_atomics_and_locks.Base.{
  ℕ, suc, zero, ◌+◌, ◌*◌, ◌≤◌, ◌<◌, ◌≡◌, refl, List, [], ◌∷◌, ◌++◌, arith, sum,
}
use rust_atomics_and_locks.Memory.{Covers}
use rust_atomics_and_locks.Arc.Word.{modulus}
use rust_atomics_and_locks.Arc.Basic.{
  idle, Action, clone, deref, drop, free, get_mut, give, write, after,
}
use rust_atomics_and_locks.Arc.Basic.Counting.{owed}
use rust_atomics_and_locks.Arc.Basic.Safety.{
  ref_count_exact, no_use_after_free, dropped_at_most_once, dropped_exactly_once, get_mut_race_free,
  get_mut_exclusive, deref_race_free,
}

-- The test of the source: a clone, of which one handle goes to a thread that reads and drops it.
abbrev moved_away : List (ℕ × Action ℕ)
moved_away = (0, clone) ∷ (0, give 1) ∷ (1, deref) ∷ (0, deref) ∷ (1, drop) ∷ []

abbrev last_drop : List (ℕ × Action ℕ)
last_drop = moved_away ++ (0, drop) ∷ []

abbrev all_gone : List (ℕ × Action ℕ)
all_gone = last_drop ++ (0, free) ∷ []

-- `get_mut` after the other handle is gone
abbrev borrowed : List (ℕ × Action ℕ)
borrowed = moved_away ++ (0, get_mut) ∷ []

not_yet_dropped : (after 2 moved_away 5).freed ≡ 0
unfolding after
not_yet_dropped = refl

shared_no_get_mut : ((after {T = ℕ} 2 ((0, clone) ∷ (0, get_mut) ∷ []) 5).threads 0).pc ≡ idle
unfolding after
shared_no_get_mut = refl

written_through : (after 2 (borrowed ++ (0, write (λ v. v * 2)) ∷ []) 5).content.content ≡ 10
unfolding after
written_through = refl

ref_count_exact_example :
    ((after 2 moved_away 5).ref_count.value ≡ sum owed 2 (after 2 moved_away 5).threads)
    × ((after 2 moved_away 5).ref_count.value + 1 < modulus)
ref_count_exact_example = ref_count_exact 2 (omega arith) (omega arith) moved_away 5

no_use_after_free_example : (after 2 moved_away 5).freed ≡ 0
unfolding after
no_use_after_free_example =
    no_use_after_free 2 (omega arith) (omega arith) moved_away 5 0 (omega arith) (omega arith)

dropped_at_most_once_example : (after 2 all_gone 5).freed ≤ 1
dropped_at_most_once_example = dropped_at_most_once 2 (omega arith) (omega arith) all_gone 5

no_handles :
    (i : ℕ)
    → i < 2
    → (((after 2 all_gone 5).threads i).handles ≡ 0) × (((after 2 all_gone 5).threads i).pc ≡ idle)
unfolding after
no_handles zero h = (refl, refl)
no_handles (suc zero) h = (refl, refl)
no_handles (suc (suc i)) h = absurd (omega arith)

dropped_exactly_once_example : (after 2 all_gone 5).freed ≡ 1
dropped_exactly_once_example =
    dropped_exactly_once 2 (omega arith) (omega arith) all_gone 5 no_handles

get_mut_exclusive_example : ((after 2 borrowed 5).threads 1).handles ≡ 0
unfolding after
get_mut_exclusive_example =
    get_mut_exclusive 2 (omega arith) (omega arith) borrowed 5 0 1 (omega arith) (omega arith)
      (omega arith) refl

get_mut_race_free_example :
    (((after 2 borrowed 5).threads 0).handles ≡ 1)
    × Covers ((after 2 borrowed 5).threads 0).local.seen (after 2 borrowed 5).content.accesses
unfolding after
get_mut_race_free_example =
    get_mut_race_free 2 (omega arith) (omega arith) borrowed 5 0 (omega arith) refl

abbrev rewritten : List (ℕ × Action ℕ)
rewritten = borrowed ++ (0, write (λ v. v * 2)) ∷ (0, give 1) ∷ []

deref_race_free_example :
    Covers ((after 2 rewritten 5).threads 1).local.seen (after 2 rewritten 5).written
unfolding after
deref_race_free_example =
    deref_race_free 2 (omega arith) (omega arith) rewritten 5 1 (omega arith) (omega arith)
