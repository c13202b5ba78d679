-- ===== src/Statistics/Inaccurate/Safety.antt =====
-- What the three relaxed atomics of `inaccurate_statistics` in examples/02-02-02_statistics.rs give.
use rust_atomics_and_locks.Base.{
  ℕ, zero, suc, ◌≤◌, ◌<◌, ◌≡◌, ◌≢◌, refl, inl, inr, List, arith, sum, sum-eq-zero, ◌==◌, ltb,
  Bool-cases, run_invariant,
}
use rust_atomics_and_locks.Memory.{relaxed}
use rust_atomics_and_locks.History.{Known, readable}
use rust_atomics_and_locks.Statistics.{Line, workers, items}
use rust_atomics_and_locks.Statistics.Summary.{IsSummary}
use rust_atomics_and_locks.Statistics.Inaccurate.{
  num_done, total_time, max_time, Stage, processing, counting, adding, raising, Main, loading_total,
  loading_max, loading_num, looked, finished, State, Action, measure, work, look, decide, start,
  load_next, decide_next, work_step, main_step, step, after,
}
use rust_atomics_and_locks.Statistics.Inaccurate.Highest.{highest-zero}
use rust_atomics_and_locks.Statistics.Inaccurate.Working.{
  counted_of, begun_of, unadded_of, unraised_of, value_of, Inv, start-Inv, process-Inv,
  add_done-Inv, add_total-Inv, raise_max-Inv,
}

module _ (s : State) (inv : Inv s) where
  open inv use {history, counted, begun, bounded, added, small, raised, read, complete}

  -- What the main thread does leaves the rest.
  main-Inv :
      (m : Main) (k : Known) (p : List Line)
      → ((n u l : ℕ) → m ≡ looked n u l → n ≤ s.memory.newest 0)
      → (m ≡ finished → 100 ≤ s.memory.newest 0)
      → Inv (record s { main = m; main_known = k; printed = p })
  main-Inv m k p is_read is_complete = record {
    history = history;
    counted = counted;
    begun = begun;
    bounded = bounded;
    added = added;
    small = small;
    raised = raised;
    read = is_read;
    complete = is_complete;
  }

  read-le :
      (x t : ℕ) → x ≡ 0 → t ≤ s.memory.newest x → (s.memory.message x t).value ≤ s.memory.newest 0
  read-le zero t e le = ground (arith, history t le)
  read-le (suc x) t e le = absurd (omega arith)

  load_next-Inv :
      (x t : ℕ) (next : ℕ → Main)
      → ((n : ℕ) → next n ≢ finished)
      → ((n k u l : ℕ) → next k ≡ looked n u l → (x ≡ 0) × (k ≡ n))
      → Inv (load_next x t next s)
  unfolding load_next
  load_next-Inv x t next goes_on is_num =
      elim (Bool-cases (readable relaxed x t s.memory s.main_known)) [
        | inl e ↦ rw e (
            main-Inv (next (s.memory.message x t).value) _ s.printed
              (λ n u l h.
                let (is, found) = is_num n (s.memory.message x t).value u l h in
                omega (arith, found, read-le x t is (ground arith)))
              (λ h. absurd (goes_on (s.memory.message x t).value h)))
        | inr e ↦ rw e inv
      ]

  decide_next-Inv : (n t l : ℕ) → s.main ≡ looked n t l → Inv (decide_next n t l s)
  unfolding decide_next
  decide_next-Inv n t l at = elim (Bool-cases (n == 100)) [
    | inl e ↦ rw e (
        main-Inv finished s.main_known s.printed (λ n u m h. absurd (cc))
          (λ h. ground (arith, read n t l at)))
    | inr e ↦
        rw e (main-Inv loading_total s.main_known _ (λ n u m h. absurd (cc)) (λ h. absurd (cc)))
  ]

  work_step-Inv :
      (i : ℕ) (x : Stage) (e : Action) → i < 4 → (s.threads i).stage ≡ x → Inv (work_step i x e s)
  unfolding work_step
  work_step-Inv i processing (measure t) lt at = elim (Bool-cases (ltb (s.threads i).item 25)) [
    | inl e ↦ rw e (process-Inv s inv i t lt at (ground arith))
    | inr e ↦ rw e inv
  ]
  work_step-Inv i (counting t) work lt at = add_done-Inv s inv i t lt at
  work_step-Inv i (adding t) work lt at = add_total-Inv s inv i t lt at
  work_step-Inv i (raising t) work lt at = raise_max-Inv s inv i t lt at
  work_step-Inv i _ _ lt at = inv

  main_step-Inv : (x : Main) (e : Action) → s.main ≡ x → Inv (main_step x e s)
  unfolding main_step
  main_step-Inv loading_total (look t) at =
      load_next-Inv 1 t loading_max (λ n h. absurd (cc)) (λ n k u l h. absurd (cc))
  main_step-Inv (loading_max u) (look t) at =
      load_next-Inv 2 t (loading_num u) (λ n h. absurd (cc)) (λ n k u l h. absurd (cc))
  main_step-Inv (loading_num u l) (look t) at =
      load_next-Inv 0 t (λ n. looked n u l) (λ n h. absurd (cc)) (λ n k u' l' h. (refl, cc))
  main_step-Inv (looked n u l) decide at = decide_next-Inv n u l at
  main_step-Inv _ _ at = inv

  each_done :
      100 ≤ s.memory.newest 0
      → (25 ≤ counted_of (s.threads 0))
        × (25 ≤ counted_of (s.threads 1))
        × (25 ≤ counted_of (s.threads 2))
        × (25 ≤ counted_of (s.threads 3))
  unfolding sum
  each_done le = ground (arith, counted, bounded 0, bounded 1, bounded 2, bounded 3)

  all_done : (i : ℕ) → i < 4 → s.main ≡ finished → 25 ≤ counted_of (s.threads i)
  all_done zero lt at = (each_done (complete at)).0
  all_done (suc zero) lt at = (each_done (complete at)).1
  all_done (suc (suc zero)) lt at = (each_done (complete at)).2
  all_done (suc (suc (suc zero))) lt at = (each_done (complete at)).3
  all_done (suc (suc (suc (suc i)))) lt at = absurd (omega arith)

  all_counted :
      ((i : ℕ) → i < 4 → (s.threads i).stage ≡ processing)
      → sum counted_of 4 s.threads ≡ sum begun_of 4 s.threads
  unfolding sum
  all_counted idle = ground (
    arith,
    idle 0 (omega arith),
    idle 1 (omega arith),
    idle 2 (omega arith),
    idle 3 (omega arith),
  )

  settled :
      ((i : ℕ) → i < 4 → (s.threads i).stage ≡ processing)
      → IsSummary (value_of 0 s.memory) (value_of 1 s.memory) (value_of 2 s.memory) s.measured
  settled idle =
      let none_unadded = sum-eq-zero unadded_of 4 s.threads (λ i lt. ground (arith, idle i lt)) in
      let none_unraised =
        highest-zero unraised_of 4 s.threads (λ i lt. ground (arith, idle i lt)) in
      (
        ground (arith, history (s.memory.newest 0), counted, begun, all_counted idle),
        ground (arith, added, small, none_unadded),
        ground (arith, raised, none_unraised),
      )

step-Inv : (e : ℕ × Action) (s : State) → Inv s → Inv (step e s)
unfolding step
step-Inv (i, e) s inv = elim (Bool-cases (ltb i 4)) [
  | inl q ↦ rw q (work_step-Inv s inv i (s.threads i).stage e (ground arith) refl)
  | inr q ↦ rw q (main_step-Inv s inv s.main e refl)
]

after-Inv : (es : List (ℕ × Action)) → Inv (after es)
unfolding after
after-Inv es = run_invariant step Inv step-Inv es start start-Inv

-- Whatever order the relaxed updates of the workers come in, while no worker is inside an item the
-- newest values of the three atomics are the number, the sum in 64 bits and the maximum of the
-- times measured so far.
pub settles_accurately :
    (es : List (ℕ × Action))
    → ((i : ℕ) → i < workers → ((after es).threads i).stage ≡ processing)
    → IsSummary
        (value_of num_done (after es).memory)
        (value_of total_time (after es).memory)
        (value_of max_time (after es).memory)
        (after es).measured
settles_accurately es idle = settled (after es) (after-Inv es) idle

-- When the main thread has left its loop, every worker has added its 25 items to `num_done`.
pub finished_counted :
    (es : List (ℕ × Action)) (i : ℕ)
    → i < workers
    → (after es).main ≡ finished
    → items ≤ counted_of ((after es).threads i)
finished_counted es i lt at = all_done (after es) (after-Inv es) i lt at
