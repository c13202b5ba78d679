-- ===== src/Arc/Optimized/Tests.antt =====
-- Runs of the optimized `Arc`, and the theorems at them.
use rust_atomics_and_locks.Base.{
  ℕ, zero, suc, ◌-◌, ◌*◌, ◌<◌, ◌≡◌, ◌⊎◌, refl, false, List, [], ◌∷◌, ◌++◌, arith, sum, run,
}
use rust_atomics_and_locks.Arc.Word.{modulus}
use rust_atomics_and_locks.Arc.Optimized.{
  idle, downgrading, Action, clone, upgrade, downgrade, drop, drop_data, drop_implicit, drop_weak,
  free, get_mut, test, unlock, deref, exchange, give, give_weak, write, step, after,
}
use rust_atomics_and_locks.Arc.Optimized.Tally.{arcs_of, weaks_of, locks, locks_of}
use rust_atomics_and_locks.Arc.Optimized.Life.{weight}
use rust_atomics_and_locks.Arc.Optimized.Safety.{
  locked_counts_exact, arc_finds_data, weak_finds_box, both_dropped_exactly_once, spin_ends,
}

-- The test of the source, with one weak pointer.
abbrev upgraded_it : List (ℕ × Action ℕ)
upgraded_it =
    (0, downgrade)
    ∷ (0, exchange false)
    ∷ (0, give_weak 1)
    ∷ (1, upgrade)
    ∷ (1, exchange false)
    ∷ (1, deref)
    ∷ []

abbrev last_drop : List (ℕ × Action ℕ)
last_drop = upgraded_it ++ (1, drop) ∷ (0, deref) ∷ (0, drop) ∷ []

abbrev last_weak : List (ℕ × Action ℕ)
last_weak = last_drop ++ (0, drop_data) ∷ (0, drop_implicit) ∷ (1, upgrade) ∷ (1, drop_weak) ∷ []

abbrev all_gone : List (ℕ × Action ℕ)
all_gone = last_weak ++ (1, free) ∷ []

abbrev borrowed : List (ℕ × Action ℕ)
borrowed = (0, clone) ∷ (0, drop) ∷ (0, get_mut) ∷ (0, test 1) ∷ (0, unlock) ∷ []

abbrev rewritten : List (ℕ × Action ℕ)
rewritten = borrowed ++ (0, write (λ v. v * 2)) ∷ (0, give 1) ∷ []

-- Thread 1 finds the count locked.
abbrev spinning : List (ℕ × Action ℕ)
spinning = (0, clone) ∷ (0, give 1) ∷ (0, get_mut) ∷ (1, downgrade) ∷ []

found_locked : ((after 2 spinning 5).threads 1).pc ≡ downgrading (modulus - 1)
unfolding after
found_locked = refl

written_through : (after 2 rewritten 5).content.content ≡ 10
unfolding after
written_through = refl

-- `get_mut` with two `Arc`s gives `None`.
not_unique : ((after {T = ℕ} 2 (spinning ++ (0, test 2) ∷ (0, unlock) ∷ []) 5).threads 0).pc ≡ idle
unfolding after
not_unique = refl

locked_counts_exact_example :
    ((after 2 spinning 5).data_ref_count.value ≡ sum arcs_of 2 (after 2 spinning 5).threads)
    × (((sum locks_of 2 (after 2 spinning 5).threads ≡ 0)
          × ((after 2 spinning 5).alloc_ref_count.value ≡ weight 2 (after 2 spinning 5)))
        ⊎ ((sum locks_of 2 (after 2 spinning 5).threads ≡ 1)
            × ((after 2 spinning 5).alloc_ref_count.value ≡ modulus - 1)
            × (sum weaks_of 2 (after 2 spinning 5).threads ≡ 0)))
locked_counts_exact_example = locked_counts_exact 2 (omega arith) spinning (omega arith) 5

arc_finds_data_example : ((after 2 upgraded_it 5).dropped ≡ 0) × ((after 2 upgraded_it 5).freed ≡ 0)
unfolding after
arc_finds_data_example =
    arc_finds_data 2 (omega arith) upgraded_it (omega arith) 5 1 (omega arith) (omega arith)

weak_finds_box_example : (after 2 last_drop 5).freed ≡ 0
unfolding after
weak_finds_box_example =
    weak_finds_box 2 (omega arith) last_drop (omega arith) 5 1 (omega arith) (omega arith)

no_handles :
    (i : ℕ)
    → i < 2
    → (((after 2 all_gone 5).threads i).arcs ≡ 0)
      × (((after 2 all_gone 5).threads i).weaks ≡ 0)
      × (((after 2 all_gone 5).threads i).pc ≡ idle)
unfolding after
no_handles zero h = (refl, refl, refl)
no_handles (suc zero) h = (refl, refl, refl)
no_handles (suc (suc i)) h = absurd (omega arith)

both_dropped_exactly_once_example :
    ((after 2 all_gone 5).dropped ≡ 1) × ((after 2 all_gone 5).freed ≡ 1)
both_dropped_exactly_once_example =
    both_dropped_exactly_once 2 (omega arith) all_gone (omega arith) 5 no_handles

spin_ends_example :
    (j : ℕ) × (j < 2)
    × (locks ((after 2 spinning 5).threads j).pc ≡ 1)
    × ((run (step 2) ((j, test 2) ∷ (j, unlock) ∷ []) (after 2 spinning 5)).alloc_ref_count.value
        ≡ 1)
unfolding after
spin_ends_example = spin_ends 2 (omega arith) spinning (omega arith) 5 refl refl 2
