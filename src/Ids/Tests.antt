-- ===== src/Ids/Tests.antt =====
-- Runs of the functions that issue identifiers, and the theorems at them.
use rust_atomics_and_locks.Base.{
  sum, ◌+◌, ℕ, ◌+◌, ◌≤◌, ◌≡◌, ◌≢◌, refl, Bool, false, some, List, [], ◌∷◌, arith, length,
}
use rust_atomics_and_locks.Ids.Countdown.{countdown, modulus}
use rust_atomics_and_locks.Ids.Wrapping.{
  allocate_new_id_with_wrap_around, allocate_new_id_with_problem, after_wrapping, after_problem,
  wrapping_ids_differ, problem_ids_repeat,
}
use rust_atomics_and_locks.Ids.Decrement
use rust_atomics_and_locks.Ids.Decrement.{extra, decrement_ids_unique}
use rust_atomics_and_locks.Ids.Limited
use rust_atomics_and_locks.Ids.Limited.{limited_ids_unique}

wrapping_ids_differ_example :
    (allocate_new_id_with_wrap_around (after_wrapping 3)).0
    ≢ (allocate_new_id_with_wrap_around (after_wrapping 7)).0
wrapping_ids_differ_example = wrapping_ids_differ 3 4 (omega arith) (omega arith)

fourth_id : (allocate_new_id_with_problem (after_problem 4)).0 ≡ some 4
unfolding allocate_new_id_with_problem after_problem
fourth_id = refl

problem_ids_repeat_example : (allocate_new_id_with_problem (after_problem (4 + modulus))).0 ≡ some 4
problem_ids_repeat_example = problem_ids_repeat 4 4 fourth_id

-- Two threads: twelve calls, of which the last two panic.
abbrev twelve_calls : List ℕ
twelve_calls = 0 ∷ 1 ∷ 0 ∷ 1 ∷ 0 ∷ 1 ∷ 0 ∷ 1 ∷ 0 ∷ 1 ∷ 0 ∷ 1 ∷ 1 ∷ 0 ∷ []

back_to_ten : (Decrement.after 2 twelve_calls).next_id.value ≡ 10
unfolding Decrement.after
back_to_ten = refl

decrement_ids_unique_example :
    ((Decrement.after 2 twelve_calls).issued
      ≡ countdown (length (Decrement.after 2 twelve_calls).issued))
    × (length (Decrement.after 2 twelve_calls).issued ≤ 10)
    × ((Decrement.after 2 twelve_calls).next_id.value
        ≡ length (Decrement.after 2 twelve_calls).issued
          + sum extra 2 (Decrement.after 2 twelve_calls).threads)
decrement_ids_unique_example = decrement_ids_unique 2 (omega arith) twelve_calls

-- Two threads load 0, and the second has to try again.
abbrev contended : List (ℕ × Bool)
contended =
    (0, false)
    ∷ (1, false)
    ∷ (0, false)
    ∷ (1, false)
    ∷ (0, false)
    ∷ (1, false)
    ∷ (1, false)
    ∷ (1, false)
    ∷ []

two_ids : (Limited.after contended).issued ≡ 1 ∷ 0 ∷ []
unfolding Limited.after
two_ids = refl

limited_ids_unique_example :
    ((Limited.after contended).issued ≡ countdown (Limited.after contended).next_id.value)
    × ((Limited.after contended).next_id.value ≤ 1000)
limited_ids_unique_example = limited_ids_unique contended
