-- ===== src/Arc/Optimized/Counts.antt =====
-- The operations of examples/06-03_optimization.rs on the two counts, but for `get_mut`.
use rust_atomics_and_locks.Base.{ℕ, ◌+◌, ◌-◌, Bool, if◌then◌else◌, put, ltb, ◌==◌}
use rust_atomics_and_locks.Memory.{
  Local, relaxed, acquire, release, Atomic, load, compare_exchange_weak, fetch_add, fetch_sub,
  fence_acquire, touch, note,
}
use rust_atomics_and_locks.Arc.Word.{modulus, max_half}
use rust_atomics_and_locks.Arc.Optimized.Handles.{
  Pc, idle, aborting, last_arc, dropping, last, panicked, downgrading, Thread, ArcData, looked_at,
}

module _ {T : Type 0} where
  abbrev pub cloned : ArcData T → Thread → Thread
  cloned s t =
      let r = fetch_add modulus relaxed 1 s.data_ref_count t.local in
      if ltb max_half r.0
      then record t { pc = aborting; local = r.2 }
      else record t { arcs = t.arcs + 1; local = r.2 }

  -- `if self.data().data_ref_count.fetch_add(1, Relaxed) > usize::MAX / 2 { abort() }`
  unfoldable pub clone_arc : ℕ → ArcData T → ArcData T
  clone_arc i s = record s {
    data_ref_count = (fetch_add modulus relaxed 1 s.data_ref_count (s.threads i).local).1;
    threads = put s.threads i (cloned s (s.threads i));
  }

  abbrev pub weak_cloned : ArcData T → Thread → Thread
  weak_cloned s t =
      let r = fetch_add modulus relaxed 1 s.alloc_ref_count t.local in
      if ltb max_half r.0
      then record t { pc = aborting; local = r.2 }
      else record t { weaks = t.weaks + 1; local = r.2 }

  -- `if self.data().alloc_ref_count.fetch_add(1, Relaxed) > usize::MAX / 2 { abort() }`
  unfoldable pub clone_one_weak : ℕ → ArcData T → ArcData T
  clone_one_weak i s = record s {
    alloc_ref_count = (fetch_add modulus relaxed 1 s.alloc_ref_count (s.threads i).local).1;
    threads = put s.threads i (weak_cloned s (s.threads i));
  }

  abbrev pub count_loaded : ArcData T → Thread → Thread
  count_loaded s t =
      let r = load relaxed s.data_ref_count t.local in record t { pc = looked_at r.0; local = r.1 }

  -- `let mut n = self.data().data_ref_count.load(Relaxed); if n == 0 { return None; }`
  unfoldable pub begin_upgrade : ℕ → ArcData T → ArcData T
  begin_upgrade i s = record s { threads = put s.threads i (count_loaded s (s.threads i)) }

  abbrev pub upgrade_exchanged : Bool → ℕ → ArcData T → Thread → Bool × ℕ × Atomic ℕ × Local
  upgrade_exchanged spurious n s t =
      compare_exchange_weak spurious relaxed relaxed (λ v. v == n) (n + 1) s.data_ref_count t.local

  abbrev pub upgrade_tried : Bool → ℕ → ArcData T → Thread → Thread
  upgrade_tried spurious n s t =
      let r = upgrade_exchanged spurious n s t in
      if r.0
      then record t { arcs = t.arcs + 1; pc = idle; local = r.3 }
      else record t { pc = looked_at r.1; local = r.3 }

  -- `data_ref_count.compare_exchange_weak(n, n + 1, Relaxed, Relaxed)`
  unfoldable pub try_upgrade : ℕ → Bool → ℕ → ArcData T → ArcData T
  try_upgrade i spurious n s = record s {
    data_ref_count = (upgrade_exchanged spurious n s (s.threads i)).2;
    threads = put s.threads i (upgrade_tried spurious n s (s.threads i));
  }

  abbrev pub alloc_loaded : ArcData T → Thread → Thread
  alloc_loaded s t =
      let r = load relaxed s.alloc_ref_count t.local in
      record t { pc = downgrading r.0; local = r.1 }

  -- `n = arc.data().alloc_ref_count.load(Relaxed)`, before the loop of `downgrade` and in it
  unfoldable pub load_alloc : ℕ → ArcData T → ArcData T
  load_alloc i s = record s { threads = put s.threads i (alloc_loaded s (s.threads i)) }

  abbrev pub downgrade_exchanged : Bool → ℕ → ArcData T → Thread → Bool × ℕ × Atomic ℕ × Local
  downgrade_exchanged spurious n s t =
      compare_exchange_weak spurious acquire relaxed (λ v. v == n) (n + 1) s.alloc_ref_count t.local

  abbrev pub downgrade_tried : Bool → ℕ → ArcData T → Thread → Thread
  downgrade_tried spurious n s t =
      let r = downgrade_exchanged spurious n s t in
      if r.0
      then record t { weaks = t.weaks + 1; pc = idle; local = r.3 }
      else record t { pc = downgrading r.1; local = r.3 }

  -- `alloc_ref_count.compare_exchange_weak(n, n + 1, Acquire, Relaxed)`
  unfoldable pub try_downgrade : ℕ → Bool → ℕ → ArcData T → ArcData T
  try_downgrade i spurious n s = record s {
    alloc_ref_count = (downgrade_exchanged spurious n s (s.threads i)).2;
    threads = put s.threads i (downgrade_tried spurious n s (s.threads i));
  }

  -- An assertion of `upgrade` or `downgrade` fails.
  unfoldable pub fail_assertion : ℕ → ArcData T → ArcData T
  fail_assertion i s = record s {
    threads = put s.threads i (record (s.threads i) { pc = panicked });
  }

  abbrev pub arc_dropped : ArcData T → Thread → Thread
  arc_dropped s t =
      let r = fetch_sub modulus release 1 s.data_ref_count t.local in
      record t { arcs = t.arcs - 1; pc = if r.0 == 1 then last_arc else idle; local = r.2 }

  -- `if self.data().data_ref_count.fetch_sub(1, Release) == 1` in `Arc::drop`
  unfoldable pub drop_arc : ℕ → ArcData T → ArcData T
  drop_arc i s = record s {
    data_ref_count = (fetch_sub modulus release 1 s.data_ref_count (s.threads i).local).1;
    threads = put s.threads i (arc_dropped s (s.threads i));
  }

  abbrev pub fenced : Pc → ArcData T → ℕ → Thread → Thread
  fenced p s i t = record t { pc = p; local = note i s.content (fence_acquire t.local) }

  -- `fence(Acquire); ManuallyDrop::drop(&mut *self.data().data.get())`
  unfoldable pub drop_content : ℕ → ArcData T → ArcData T
  drop_content i s = record s {
    content = touch i s.content.content s.content;
    dropped = s.dropped + 1;
    threads = put s.threads i (fenced dropping s i (s.threads i));
  }

  -- `self.data().alloc_ref_count.fetch_sub(1, Release)` in `Weak::drop`, also for the implicit one
  abbrev pub alloc_subtracted : ArcData T → Thread → ℕ × Atomic ℕ × Local
  alloc_subtracted s t = fetch_sub modulus release 1 s.alloc_ref_count t.local

  abbrev pub implicit_dropped : ArcData T → Thread → Thread
  implicit_dropped s t =
      let r = alloc_subtracted s t in record t { pc = if r.0 == 1 then last else idle; local = r.2 }

  -- `drop(Weak { ptr: self.ptr })`
  unfoldable pub drop_implicit_weak : ℕ → ArcData T → ArcData T
  drop_implicit_weak i s = record s {
    alloc_ref_count = (alloc_subtracted s (s.threads i)).1;
    threads = put s.threads i (implicit_dropped s (s.threads i));
  }

  abbrev pub weak_dropped : ArcData T → Thread → Thread
  weak_dropped s t =
      let r = alloc_subtracted s t in
      record t { weaks = t.weaks - 1; pc = if r.0 == 1 then last else idle; local = r.2 }

  -- `if self.data().alloc_ref_count.fetch_sub(1, Release) == 1` in `Weak::drop`
  unfoldable pub drop_one_weak : ℕ → ArcData T → ArcData T
  drop_one_weak i s = record s {
    alloc_ref_count = (alloc_subtracted s (s.threads i)).1;
    threads = put s.threads i (weak_dropped s (s.threads i));
  }

  -- `fence(Acquire); drop(Box::from_raw(self.ptr.as_ptr()))`
  unfoldable pub free_box : ℕ → ArcData T → ArcData T
  free_box i s = record s {
    content = touch i s.content.content s.content;
    freed = s.freed + 1;
    threads = put s.threads i (fenced idle s i (s.threads i));
  }
