-- ===== src/Arc/Optimized/Access.antt =====
-- `get_mut` of examples/06-03_optimization.rs, the accesses to the data, and moves of handles.
use rust_atomics_and_locks.Base.{ℕ, ◌-◌, Bool, if◌then◌else◌, put, ◌==◌}
use rust_atomics_and_locks.Memory.{
  Local, relaxed, acquire, release, Atomic, store, compare_exchange, touch, note,
}
use rust_atomics_and_locks.Arc.Word.{modulus}
use rust_atomics_and_locks.Arc.Optimized.Handles.{
  Pc, idle, locking, tested, Thread, ArcData, given, received, given_weak, received_weak, unlocked,
}

abbrev pub unique_tested : ℕ → Thread → Thread
unique_tested seen t = record t { pc = tested (seen == 1) }

module _ {T : Type 0} where
  abbrev pub lock_exchanged : ArcData T → Thread → Bool × ℕ × Atomic ℕ × Local
  lock_exchanged s t =
      compare_exchange acquire relaxed (λ v. v == 1) (modulus - 1) s.alloc_ref_count t.local

  abbrev pub lock_tried : ArcData T → Thread → Thread
  lock_tried s t =
      let r = lock_exchanged s t in record t { pc = if r.0 then locking else idle; local = r.3 }

  -- `alloc_ref_count.compare_exchange(1, usize::MAX, Acquire, Relaxed)` in `get_mut`
  unfoldable pub try_lock : ℕ → ArcData T → ArcData T
  try_lock i s = record s {
    alloc_ref_count = (lock_exchanged s (s.threads i)).2;
    threads = put s.threads i (lock_tried s (s.threads i));
  }

  -- `let is_unique = arc.data().data_ref_count.load(Relaxed) == 1`. A relaxed load may return an old
  -- value. Which one is not restricted here: what it returns is part of the action.
  unfoldable pub test_unique : ℕ → ℕ → ArcData T → ArcData T
  test_unique i seen s = record s { threads = put s.threads i (unique_tested seen (s.threads i)) }

  -- `alloc_ref_count.store(1, Release); if !is_unique { return None; } fence(Acquire)`
  unfoldable pub unlock_alloc : ℕ → Bool → ArcData T → ArcData T
  unlock_alloc i is_unique s = record s {
    alloc_ref_count = store release 1 (s.threads i).local;
    threads = put s.threads i (unlocked is_unique (s.threads i));
  }

  abbrev pub noted : Pc → ArcData T → ℕ → Thread → Thread
  noted p s i t = record t { pc = p; local = note i s.content t.local }

  -- A write through the mutable reference, which then ends.
  unfoldable pub update : ℕ → (T → T) → ArcData T → ArcData T
  update i f s = record s {
    content = touch i (f s.content.content) s.content;
    threads = put s.threads i (noted idle s i (s.threads i));
  }

  -- A read through `deref`.
  unfoldable pub read : ℕ → ArcData T → ArcData T
  read i s = record s {
    content = touch i s.content.content s.content;
    threads = put s.threads i (noted idle s i (s.threads i));
  }

  -- Thread `i` moves an `Arc`, or a `Weak`, to thread `j`.
  unfoldable pub hand_over : ℕ → ℕ → ArcData T → ArcData T
  hand_over i j s =
      let left = put s.threads i (given (s.threads i)) in
      record s { threads = put left j (received (s.threads i).local.seen (left j)) }

  unfoldable pub hand_over_weak : ℕ → ℕ → ArcData T → ArcData T
  hand_over_weak i j s =
      let left = put s.threads i (given_weak (s.threads i)) in
      record s { threads = put left j (received_weak (s.threads i).local.seen (left j)) }
