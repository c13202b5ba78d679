-- ===== src/Statistics/Tests.antt =====
-- Runs of the two statistics programs, and the theorems at them.
use rust_atomics_and_locks.Base.{ℕ, zero, suc, ◌≤◌, ◌<◌, ◌≡◌, refl, List, [], ◌∷◌, ◌++◌, arith}
use rust_atomics_and_locks.Statistics.{items, workers}
use rust_atomics_and_locks.Statistics.Summary.{IsSummary}
use rust_atomics_and_locks.Statistics.Accurate
use rust_atomics_and_locks.Statistics.Inaccurate
use rust_atomics_and_locks.Statistics.Inaccurate.Working.{counted_of}
use rust_atomics_and_locks.Statistics.Accurate.Safety.{
  Summarizes, WasSummary, snapshot_consistent, finished_complete,
}
use rust_atomics_and_locks.Statistics.Inaccurate.Safety.{settles_accurately, finished_counted}

-- Two workers record times, between which the main thread reads.
abbrev two_recorded : List (ℕ × Accurate.Action)
two_recorded =
    (0, Accurate.measure 30)
    ∷ (1, Accurate.measure 50)
    ∷ (1, Accurate.record_time)
    ∷ (9, Accurate.look)
    ∷ (0, Accurate.record_time)
    ∷ []

abbrev first_recorded : Accurate.Statistics
first_recorded = record { num_done = 1; total_time = 50; max_time = 50 }

snapshot_consistent_example :
    Summarizes (Accurate.after two_recorded).statistics (Accurate.after two_recorded).recorded
    × WasSummary first_recorded (Accurate.after two_recorded).recorded
unfolding Accurate.after
snapshot_consistent_example = snapshot_consistent two_recorded first_recorded refl

-- Every item of every worker, one after the other.
abbrev times {ℓ} : {A : Type ℓ} → ℕ → List A → List A
times zero es = []
times (suc k) es = es ++ times k es

abbrev item_of_each : List (ℕ × Accurate.Action)
item_of_each =
    (0, Accurate.measure 4)
    ∷ (0, Accurate.record_time)
    ∷ (1, Accurate.measure 3)
    ∷ (1, Accurate.record_time)
    ∷ (2, Accurate.measure 2)
    ∷ (2, Accurate.record_time)
    ∷ (3, Accurate.measure 1)
    ∷ (3, Accurate.record_time)
    ∷ []

abbrev whole_run : List (ℕ × Accurate.Action)
whole_run = times 25 item_of_each ++ (9, Accurate.look) ∷ (9, Accurate.decide) ∷ []

finished_complete_example : ((Accurate.after whole_run).threads 2).item ≡ 25
unfolding Accurate.after
finished_complete_example = finished_complete whole_run 2 (omega arith) refl

-- The updates of two workers interleave.
abbrev two_interleaved : List (ℕ × Inaccurate.Action)
two_interleaved =
    (0, Inaccurate.measure 30)
    ∷ (1, Inaccurate.measure 50)
    ∷ (1, Inaccurate.work)
    ∷ (0, Inaccurate.work)
    ∷ (0, Inaccurate.work)
    ∷ (1, Inaccurate.work)
    ∷ (1, Inaccurate.work)
    ∷ (0, Inaccurate.work)
    ∷ []

idle_again :
    (i : ℕ)
    → i < workers
    → ((Inaccurate.after two_interleaved).threads i).stage ≡ Inaccurate.processing
unfolding Inaccurate.after
idle_again zero lt = refl
idle_again (suc zero) lt = refl
idle_again (suc (suc zero)) lt = refl
idle_again (suc (suc (suc zero))) lt = refl
idle_again (suc (suc (suc (suc i)))) lt = absurd (omega arith)

settles_accurately_example : IsSummary 2 80 50 (50 ∷ 30 ∷ [])
unfolding Inaccurate.after
settles_accurately_example = settles_accurately two_interleaved idle_again

abbrev updates_of_each : List (ℕ × Inaccurate.Action)
updates_of_each =
    (0, Inaccurate.measure 4)
    ∷ (0, Inaccurate.work)
    ∷ (0, Inaccurate.work)
    ∷ (0, Inaccurate.work)
    ∷ (1, Inaccurate.measure 3)
    ∷ (1, Inaccurate.work)
    ∷ (1, Inaccurate.work)
    ∷ (1, Inaccurate.work)
    ∷ (2, Inaccurate.measure 2)
    ∷ (2, Inaccurate.work)
    ∷ (2, Inaccurate.work)
    ∷ (2, Inaccurate.work)
    ∷ []

-- The main thread leaves its loop although a worker has not yet added its last time.
abbrev unsettled_run : List (ℕ × Inaccurate.Action)
unsettled_run =
    times 25 updates_of_each
    ++ times 24 (
        (3, Inaccurate.measure 1)
        ∷ (3, Inaccurate.work)
        ∷ (3, Inaccurate.work)
        ∷ (3, Inaccurate.work)
        ∷ [])
    ++ (3, Inaccurate.measure 1)
      ∷ (3, Inaccurate.work)
      ∷ (9, Inaccurate.look 0)
      ∷ (9, Inaccurate.look 0)
      ∷ (9, Inaccurate.look 100)
      ∷ (9, Inaccurate.decide)
      ∷ []

unsettled : ((Inaccurate.after unsettled_run).threads 3).stage ≡ Inaccurate.adding 1
unfolding Inaccurate.after
unsettled = refl

finished_counted_example : items ≤ counted_of ((Inaccurate.after unsettled_run).threads 3)
unfolding Inaccurate.after
finished_counted_example = finished_counted unsettled_run 3 (omega arith) refl
