-- ===== src/History/Fence/Tests.antt =====
-- Runs of the ten threads and the fence, and the theorems at one.
use rust_atomics_and_locks.Base.{◌≤◌, ◌≡◌, refl, List, [], ◌∷◌, ◌++◌, arith}
use rust_atomics_and_locks.History.Fence.{
  Action, write, set_ready, load_ready, check, print, after, some_calculation,
}
use rust_atomics_and_locks.History.Fence.Safety.{AllRight, prints_results, fenced_read_race_free}

-- Threads 2 and 3 are done, but main finds only the flag of thread 3.
abbrev until_fence : List Action
until_fence =
    write 2
    ∷ set_ready 2
    ∷ write 3
    ∷ set_ready 3
    ∷ load_ready 0
    ∷ load_ready 0
    ∷ load_ready 0
    ∷ load_ready 1
    ∷ load_ready 0
    ∷ load_ready 0
    ∷ load_ready 0
    ∷ load_ready 0
    ∷ load_ready 0
    ∷ load_ready 0
    ∷ check
    ∷ print 0
    ∷ print 0
    ∷ print 0
    ∷ []

one_printed : (after (until_fence ++ (print 1 ∷ []))).printed ≡ (3, 9) ∷ []
unfolding after some_calculation
one_printed = refl

prints_results_example : AllRight (after (until_fence ++ (print 1 ∷ []))).printed
prints_results_example = prints_results (until_fence ++ (print 1 ∷ []))

fenced_read_race_free_example :
    (after until_fence).memory.newest 3 ≤ (after until_fence).main_known.seen 3
unfolding after
fenced_read_race_free_example = fenced_read_race_free until_fence 3 (omega arith) refl refl
