-- ===== src/Statistics/Inaccurate/Working.antt =====
-- The counts of the workers in `inaccurate_statistics` of examples/02-02-02_statistics.rs: each update
-- keeps what the three atomics say of the times measured.
use rust_atomics_and_locks.Base.{
  ℕ, ◌+◌, ◌%◌, ◌≤◌, ◌<◌, ◌≡◌, refl, inl, inr, length, arith, sum, sum-put, ◌==◌, max, Bool-cases,
}
use rust_atomics_and_locks.History.{Store, update_relaxed}
use rust_atomics_and_locks.Statistics.{modulus}
use rust_atomics_and_locks.Statistics.Summary.{total, peak}
use rust_atomics_and_locks.Statistics.Inaccurate.{
  Worker, Stage, processing, counting, adding, raising, looked, finished, State, start, process,
  add_done, add_total, raise_max,
}
use rust_atomics_and_locks.Statistics.Inaccurate.Highest.{highest, highest-put}

-- Of a worker's items: those that `num_done` has, and those that were measured.
abbrev pub counted_stage : Stage → ℕ
counted_stage (adding t) = 1
counted_stage (raising t) = 1
counted_stage _ = 0

abbrev pub counted_of : Worker → ℕ
counted_of w = w.item + counted_stage w.stage

abbrev pub begun_stage : Stage → ℕ
begun_stage processing = 0
begun_stage _ = 1

abbrev pub begun_of : Worker → ℕ
begun_of w = w.item + begun_stage w.stage

-- The time that is yet to be added, and that by which the maximum is yet to be raised.
abbrev pub unadded_stage : Stage → ℕ
unadded_stage (counting t) = t
unadded_stage (adding t) = t
unadded_stage _ = 0

abbrev pub unadded_of : Worker → ℕ
unadded_of w = unadded_stage w.stage

abbrev pub unraised_stage : Stage → ℕ
unraised_stage processing = 0
unraised_stage (counting t) = t
unraised_stage (adding t) = t
unraised_stage (raising t) = t

abbrev pub unraised_of : Worker → ℕ
unraised_of w = unraised_stage w.stage

-- The newest value of an atomic.
abbrev pub value_of : ℕ → Store → ℕ
value_of x m = (m.message x (m.newest x)).value

pub record Inv (s : State) : Type 0 where
  pub history : (t : ℕ) → t ≤ s.memory.newest 0 → (s.memory.message 0 t).value ≡ t
  pub counted : s.memory.newest 0 ≡ sum counted_of 4 s.threads
  pub begun : length s.measured ≡ sum begun_of 4 s.threads
  pub bounded : (i : ℕ) → i < 4 → begun_of (s.threads i) ≤ 25
  pub added :
      (value_of 1 s.memory + sum unadded_of 4 s.threads) % modulus ≡ total s.measured % modulus
  pub small : value_of 1 s.memory < modulus
  pub raised : max (value_of 2 s.memory) (highest unraised_of 4 s.threads) ≡ peak s.measured
  pub read : (n t m : ℕ) → s.main ≡ looked n t m → n ≤ s.memory.newest 0
  pub complete : s.main ≡ finished → 100 ≤ s.memory.newest 0

pub start-Inv : Inv start
unfolding start sum total peak highest
start-Inv = record {
  history = λ t le. ground arith;
  counted = refl;
  begun = refl;
  bounded = λ i lt. omega arith;
  added = refl;
  small = omega arith;
  raised = refl;
  read = λ n t m h. absurd (cc);
  complete = λ h. absurd (cc);
}

module _ (s : State) (inv : Inv s) where
  open inv use {history, counted, begun, bounded, added, small, raised, read, complete}

  at_most : s.memory.newest 0 ≤ 100
  unfolding sum
  at_most = ground (arith, counted, bounded 0, bounded 1, bounded 2, bounded 3)

  pub process-Inv :
      (i t : ℕ)
      → i < 4
      → (s.threads i).stage ≡ processing
      → (s.threads i).item < 25
      → Inv (process i t s)
  unfolding process total peak
  process-Inv i t lt at few =
      let w : Worker = record (s.threads i) { stage = counting t } in
      let (rest, was, is) = highest-put unraised_of 4 i s.threads w lt in
      record {
        history = history;
        counted = ground (arith, counted, sum-put counted_of 4 i s.threads w lt);
        begun = ground (arith, begun, sum-put begun_of 4 i s.threads w lt);
        bounded = λ j l. ground (arith, bounded j l);
        added = ground (arith, added, sum-put unadded_of 4 i s.threads w lt);
        small = small;
        raised = ground (arith, raised, was, is);
        read = read;
        complete = complete;
      }

  add_done-history :
      (i t u : ℕ) → u ≤ s.memory.newest 0 + 1 → ((add_done i t s).memory.message 0 u).value ≡ u
  unfolding add_done
  add_done-history i t u le = elim (Bool-cases (s.memory.newest 0 + 1 == u)) [
    | inl e ↦ rw e (ground (arith, history (s.memory.newest 0), at_most))
    | inr e ↦ rw e (history u (ground arith))
  ]

  pub add_done-Inv : (i t : ℕ) → i < 4 → (s.threads i).stage ≡ counting t → Inv (add_done i t s)
  unfolding add_done
  add_done-Inv i t lt at =
      let w : Worker = record {
        item = (s.threads i).item;
        stage = adding t;
        known = (update_relaxed 0 (λ w. (w + 1) % modulus) s.memory (s.threads i).known).1;
      } in
      let (rest, was, is) = highest-put unraised_of 4 i s.threads w lt in
      record {
        history = add_done-history i t;
        counted = ground (arith, counted, sum-put counted_of 4 i s.threads w lt);
        begun = ground (arith, begun, sum-put begun_of 4 i s.threads w lt);
        bounded = λ j l. ground (arith, bounded j l);
        added = ground (arith, added, sum-put unadded_of 4 i s.threads w lt);
        small = small;
        raised = ground (arith, raised, was, is);
        read = λ n u m h. ground (arith, read n u m h);
        complete = λ h. ground (arith, complete h);
      }

  pub add_total-Inv : (i t : ℕ) → i < 4 → (s.threads i).stage ≡ adding t → Inv (add_total i t s)
  unfolding add_total
  add_total-Inv i t lt at =
      let w : Worker = record {
        item = (s.threads i).item;
        stage = raising t;
        known = (update_relaxed 1 (λ w. (w + t) % modulus) s.memory (s.threads i).known).1;
      } in
      let (rest, was, is) = highest-put unraised_of 4 i s.threads w lt in
      record {
        history = history;
        counted = ground (arith, counted, sum-put counted_of 4 i s.threads w lt);
        begun = ground (arith, begun, sum-put begun_of 4 i s.threads w lt);
        bounded = λ j l. ground (arith, bounded j l);
        added = ground (arith, added, sum-put unadded_of 4 i s.threads w lt);
        small = ground (arith, small);
        raised = ground (arith, raised, was, is);
        read = read;
        complete = complete;
      }

  pub raise_max-Inv : (i t : ℕ) → i < 4 → (s.threads i).stage ≡ raising t → Inv (raise_max i t s)
  unfolding raise_max
  raise_max-Inv i t lt at =
      let w : Worker = record {
        item = (s.threads i).item + 1;
        stage = processing;
        known = (update_relaxed 2 (λ w. max w t) s.memory (s.threads i).known).1;
      } in
      let (rest, was, is) = highest-put unraised_of 4 i s.threads w lt in
      record {
        history = history;
        counted = ground (arith, counted, sum-put counted_of 4 i s.threads w lt);
        begun = ground (arith, begun, sum-put begun_of 4 i s.threads w lt);
        bounded = λ j l. ground (arith, bounded j l);
        added = ground (arith, added, sum-put unadded_of 4 i s.threads w lt);
        small = small;
        raised = ground (arith, raised, was, is);
        read = read;
        complete = complete;
      }
