-- ===== src/History/Fence/Threads.antt =====
-- What each thread of examples/03-08_fence.rs has done, and what the main thread knows of it.
use rust_atomics_and_locks.Base.{
  ℕ, zero, suc, ◌+◌, ◌≤◌, ◌<◌, ◌≡◌, ◌≢◌, inl, inr, Bool-cases, Bool, true, false, arith,
}
use rust_atomics_and_locks.History.Fence.{
  some_calculation, calculating, written, signalled, Main, loading, printing, finished, State,
  write_data, set_flag, load_flag, contains_true, check_ready, print_data,
}

abbrev pub is_fenced : Main → Bool
is_fenced (printing i) = true
is_fenced _ = false

-- What holds of thread `j`, its two locations, and what main found of it.
pub record ThreadInv (j : ℕ) (s : State) : Type 0 where
  pub unwritten : (s.threads j).stage ≡ calculating → s.memory.newest j ≡ 0
  pub data_newest : (s.threads j).stage ≢ calculating → s.memory.newest j ≡ 1
  pub data_right :
      (s.threads j).stage ≢ calculating → (s.memory.message j 1).value ≡ some_calculation j
  pub unset : (s.threads j).stage ≢ signalled → s.memory.newest (10 + j) ≡ 0
  pub flag_newest : (s.threads j).stage ≡ signalled → s.memory.newest (10 + j) ≡ 1
  pub flag_view : (s.threads j).stage ≡ signalled → (s.memory.message (10 + j) 1).view j ≡ 1
  pub flag_first : (s.memory.message (10 + j) 0).value ≡ 0
  pub writer_aware : (s.threads j).stage ≡ written → (s.threads j).known.seen j ≡ 1
  pub found : s.ready j ≡ true → (s.threads j).stage ≡ signalled
  pub found_view : s.ready j ≡ true → 1 ≤ s.main_known.unfenced j
  pub fenced : is_fenced s.main ≡ true → s.ready j ≡ true → 1 ≤ s.main_known.seen j

module _ (s : State) (j : ℕ) (lt : j < 10) (inv : ThreadInv j s) where
  open inv use {
    unwritten, data_newest, data_right, unset, flag_newest, flag_view, flag_first, writer_aware,
    found, found_view, fenced,
  }

  pub write_data-ThreadInv :
      (i : ℕ) → i < 10 → (s.threads i).stage ≡ calculating → ThreadInv j (write_data i s)
  unfolding write_data
  write_data-ThreadInv i le at = record {
    unwritten = λ h. ground (arith, unwritten);
    data_newest = λ h. ground (arith, unwritten, data_newest);
    data_right = λ h. ground (arith, unwritten, data_right);
    unset = λ h. ground (arith, unset);
    flag_newest = λ h. ground (arith, flag_newest);
    flag_view = λ h. ground (arith, flag_view);
    flag_first = ground (arith, flag_first);
    writer_aware = λ h. ground (arith, unwritten, writer_aware);
    found = λ h. ground (arith, found);
    found_view = found_view;
    fenced = fenced;
  }

  pub set_flag-ThreadInv :
      (i : ℕ) → i < 10 → (s.threads i).stage ≡ written → ThreadInv j (set_flag i s)
  unfolding set_flag
  set_flag-ThreadInv i le at = record {
    unwritten = λ h. ground (arith, unwritten);
    data_newest = λ h. ground (arith, data_newest);
    data_right = λ h. ground (arith, data_right);
    unset = λ h. ground (arith, unset);
    flag_newest = λ h. ground (arith, unset, flag_newest);
    flag_view = λ h. ground (arith, unset, flag_view, writer_aware);
    flag_first = ground (arith, unset, flag_first);
    writer_aware = λ h. ground (arith, writer_aware);
    found = λ h. ground (arith, found);
    found_view = found_view;
    fenced = fenced;
  }

  pub load_flag-ThreadInv :
      (i t : ℕ)
      → i < 10
      → s.main ≡ loading i
      → t ≤ s.memory.newest (10 + i)
      → s.memory.newest (10 + i) ≤ 1
      → ThreadInv j (load_flag i t s)
  unfolding load_flag
  load_flag-ThreadInv i zero le at le' once = record {
    unwritten = unwritten;
    data_newest = data_newest;
    data_right = data_right;
    unset = unset;
    flag_newest = flag_newest;
    flag_view = flag_view;
    flag_first = flag_first;
    writer_aware = writer_aware;
    found = λ h. ground (arith, found, flag_first);
    found_view = λ h. ground (arith, found_view, flag_first);
    fenced = λ h r. ground (arith);
  }
  load_flag-ThreadInv i (suc zero) le at le' once = record {
    unwritten = unwritten;
    data_newest = data_newest;
    data_right = data_right;
    unset = unset;
    flag_newest = flag_newest;
    flag_view = flag_view;
    flag_first = flag_first;
    writer_aware = writer_aware;
    found = λ h. ground (arith, found, unset);
    found_view = λ h. ground (arith, found_view, unset, flag_view);
    fenced = λ h r. ground (arith);
  }
  load_flag-ThreadInv i (suc (suc t)) le at le' once = absurd (omega arith)

  pub check_ready-ThreadInv : (i : ℕ) → s.main ≡ loading i → ThreadInv j (check_ready s)
  unfolding check_ready
  check_ready-ThreadInv i at = elim (Bool-cases (contains_true 10 s.ready)) [
    | inl e ↦ rw e (record {
      unwritten = unwritten;
      data_newest = data_newest;
      data_right = data_right;
      unset = unset;
      flag_newest = flag_newest;
      flag_view = flag_view;
      flag_first = flag_first;
      writer_aware = writer_aware;
      found = found;
      found_view = found_view;
      fenced = λ h r. ground (arith, found_view);
    })
    | inr e ↦ rw e (record {
      unwritten = unwritten;
      data_newest = data_newest;
      data_right = data_right;
      unset = unset;
      flag_newest = flag_newest;
      flag_view = flag_view;
      flag_first = flag_first;
      writer_aware = writer_aware;
      found = found;
      found_view = found_view;
      fenced = λ h r. ground (arith, fenced);
    })
  ]

  pub print_data-ThreadInv :
      (i t : ℕ)
      → i < 10
      → s.main ≡ printing i
      → (s.ready i ≡ true → s.main_known.seen i ≤ t)
      → ThreadInv j (print_data i t s)
  unfolding print_data
  print_data-ThreadInv i t le at ge = elim (Bool-cases (s.ready i)) [
    | inl e ↦ rw e (record {
      unwritten = unwritten;
      data_newest = data_newest;
      data_right = data_right;
      unset = unset;
      flag_newest = flag_newest;
      flag_view = flag_view;
      flag_first = flag_first;
      writer_aware = writer_aware;
      found = found;
      found_view = λ h. ground (arith, found_view);
      fenced = λ h r. ground (arith, fenced, ge e);
    })
    | inr e ↦ rw e (record {
      unwritten = unwritten;
      data_newest = data_newest;
      data_right = data_right;
      unset = unset;
      flag_newest = flag_newest;
      flag_view = flag_view;
      flag_first = flag_first;
      writer_aware = writer_aware;
      found = found;
      found_view = found_view;
      fenced = λ h r. ground (arith, fenced);
    })
  ]

  pub finish-ThreadInv : ThreadInv j (record s { main = finished })
  finish-ThreadInv = record {
    unwritten = unwritten;
    data_newest = data_newest;
    data_right = data_right;
    unset = unset;
    flag_newest = flag_newest;
    flag_view = flag_view;
    flag_first = flag_first;
    writer_aware = writer_aware;
    found = found;
    found_view = found_view;
    fenced = λ h r. ground (arith);
  }

  pub newest_le_one : s.memory.newest (10 + j) ≤ 1
  newest_le_one = ground (arith, flag_newest, unset)
