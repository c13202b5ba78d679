-- ===== src/Statistics/Accurate/Safety.antt =====
-- What the mutex of `accurate_statistics` in examples/02-02-02_statistics.rs gives.
use rust_atomics_and_locks.Base.{
  ℕ, zero, suc, ◌+◌, ◌≤◌, ◌<◌, ◌≡◌, refl, inl, inr, sym, List, ◌∷◌, length, arith, sum, sum-put,
  ◌==◌, ltb, Bool-cases, run_invariant,
}
use rust_atomics_and_locks.Statistics.{workers, items}
use rust_atomics_and_locks.Statistics.Summary.{IsSummary, IsSummary-cons, total, peak}
use rust_atomics_and_locks.Statistics.Accurate.{
  Statistics, Stage, processing, measured, Worker, Main, watching, looked, finished, State, Action,
  measure, record_time, look, decide, start, process, update, read_statistics, decide_next,
  work_step, main_step, step, after,
}

abbrev pub Summarizes : Statistics → List ℕ → Type 0
Summarizes g ts = IsSummary g.num_done g.total_time g.max_time ts

-- The statistics are those of all times, or of all that had been recorded at an earlier moment.
pub data WasSummary (g : Statistics) : List ℕ → Type 0 where
  now : (ts : List ℕ) → IsSummary g.num_done g.total_time g.max_time ts → WasSummary g ts
  earlier : (t : ℕ) (ts : List ℕ) → WasSummary g ts → WasSummary g (t ∷ ts)

WasSummary-le : (g : Statistics) (ts : List ℕ) → WasSummary g ts → g.num_done ≤ length ts
WasSummary-le g ts (now ts' h) = ground (arith, h.0)
WasSummary-le g ts (earlier t ts' h) = ground (arith, WasSummary-le g ts' h)

-- How many of its items a worker has begun to count.
abbrev item_of : Worker → ℕ
item_of w = w.item

abbrev in_hand : Stage → ℕ
in_hand processing = 0
in_hand (measured t) = 1

record Inv (s : State) : Type 0 where
  summary : Summarizes s.statistics s.recorded
  counted : length s.recorded ≡ sum item_of 4 s.threads
  bounded : (i : ℕ) → i < 4 → (s.threads i).item + in_hand (s.threads i).stage ≤ 25
  read : (g : Statistics) → s.main ≡ looked g → WasSummary g s.recorded
  complete : s.main ≡ finished → 100 ≤ length s.recorded

start-Inv : Inv start
unfolding start sum total peak
start-Inv = record {
  summary = (refl, refl, refl);
  counted = refl;
  bounded = λ i lt. omega arith;
  read = λ g h. absurd (cc);
  complete = λ h. absurd (cc);
}

module _ (s : State) (inv : Inv s) where
  open inv use {summary, counted, bounded, read, complete}

  at_most : length s.recorded ≤ 100
  unfolding sum
  at_most = ground (arith, counted, bounded 0, bounded 1, bounded 2, bounded 3)

  each_done :
      s.main ≡ finished
      → ((s.threads 0).item ≡ 25)
        × ((s.threads 1).item ≡ 25)
        × ((s.threads 2).item ≡ 25)
        × ((s.threads 3).item ≡ 25)
  unfolding sum
  each_done at = ground (arith, complete at, counted, bounded 0, bounded 1, bounded 2, bounded 3)

  all_done : (i : ℕ) → i < 4 → s.main ≡ finished → (s.threads i).item ≡ 25
  all_done zero lt at = (each_done at).0
  all_done (suc zero) lt at = (each_done at).1
  all_done (suc (suc zero)) lt at = (each_done at).2
  all_done (suc (suc (suc zero))) lt at = (each_done at).3
  all_done (suc (suc (suc (suc i)))) lt at = absurd (omega arith)

  process-Inv :
      (i t : ℕ)
      → i < 4
      → (s.threads i).stage ≡ processing
      → (s.threads i).item < 25
      → Inv (process i t s)
  unfolding process
  process-Inv i t lt at few = record {
    summary = summary;
    counted = ground (
      arith,
      counted,
      sum-put item_of 4 i s.threads (record (s.threads i) { stage = measured t }) lt,
    );
    bounded = λ j l. ground (arith, bounded j l);
    read = read;
    complete = complete;
  }

  update-Inv : (i t : ℕ) → i < 4 → (s.threads i).stage ≡ measured t → Inv (update i t s)
  unfolding update total peak
  update-Inv i t lt at = record {
    summary = IsSummary-cons _ _ _ t s.recorded summary (omega (arith, summary.0, at_most));
    counted = ground (
      arith,
      counted,
      sum-put item_of 4 i s.threads (record { item = (s.threads i).item + 1; stage = processing })
          lt,
    );
    bounded = λ j l. ground (arith, bounded j l);
    read = λ g h. earlier t s.recorded (read g h);
    complete = λ h. ground (arith, complete h);
  }

  read_statistics-Inv : s.main ≡ watching → Inv (read_statistics s)
  unfolding read_statistics
  read_statistics-Inv at = record {
    summary = summary;
    counted = counted;
    bounded = bounded;
    read = λ g h. let e : s.statistics ≡ g = cc in now s.recorded (rw (sym e) summary);
    complete = λ h. absurd (cc);
  }

  decide_next-Inv : (g : Statistics) → s.main ≡ looked g → Inv (decide_next g s)
  unfolding decide_next
  decide_next-Inv g at = elim (Bool-cases (g.num_done == 100)) [
    | inl e ↦ rw e (record {
      summary = summary;
      counted = counted;
      bounded = bounded;
      read = λ g h. absurd (cc);
      complete = λ h. ground (arith, WasSummary-le g s.recorded (read g at));
    })
    | inr e ↦ rw e (record {
      summary = summary;
      counted = counted;
      bounded = bounded;
      read = λ g h. absurd (cc);
      complete = λ h. absurd (cc);
    })
  ]

  work_step-Inv :
      (i : ℕ) (x : Stage) (e : Action) → i < 4 → (s.threads i).stage ≡ x → Inv (work_step i x e s)
  unfolding work_step
  work_step-Inv i processing (measure t) lt at = elim (Bool-cases (ltb (s.threads i).item 25)) [
    | inl e ↦ rw e (process-Inv i t lt at (ground arith))
    | inr e ↦ rw e inv
  ]
  work_step-Inv i (measured t) record_time lt at = update-Inv i t lt at
  work_step-Inv i _ _ lt at = inv

  main_step-Inv : (x : Main) (e : Action) → s.main ≡ x → Inv (main_step x e s)
  unfolding main_step
  main_step-Inv watching look at = read_statistics-Inv at
  main_step-Inv (looked g) decide at = decide_next-Inv g at
  main_step-Inv _ _ at = inv

step-Inv : (e : ℕ × Action) (s : State) → Inv s → Inv (step e s)
unfolding step
step-Inv (i, e) s inv = elim (Bool-cases (ltb i 4)) [
  | inl q ↦ rw q (work_step-Inv s inv i (s.threads i).stage e (ground arith) refl)
  | inr q ↦ rw q (main_step-Inv s inv s.main e refl)
]

after-Inv : (es : List (ℕ × Action)) → Inv (after es)
unfolding after
after-Inv es = run_invariant step Inv step-Inv es start start-Inv

-- The shared statistics are the number, the sum in 64 bits and the maximum of the times recorded so
-- far, and what the main thread has read under the mutex is that of all times that had been
-- recorded at one moment.
pub snapshot_consistent :
    (es : List (ℕ × Action)) (g : Statistics)
    → (after es).main ≡ looked g
    → Summarizes (after es).statistics (after es).recorded × WasSummary g (after es).recorded
snapshot_consistent es g at = ((after-Inv es).summary, (after-Inv es).read g at)

-- When the main thread has left its loop, every worker has recorded all of its 25 items.
pub finished_complete :
    (es : List (ℕ × Action)) (i : ℕ)
    → i < workers
    → (after es).main ≡ finished
    → ((after es).threads i).item ≡ items
finished_complete es i lt at = all_done (after es) (after-Inv es) i lt at
