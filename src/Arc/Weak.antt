-- ===== src/Arc/Weak.antt =====
-- examples/06-02_weak-pointer.rs: an `Arc` with weak pointers, and the `n` threads that hold its
-- handles.
--
-- An `Arc` holds a `Weak`, so `alloc_ref_count` counts both. The operations with two atomic
-- accesses are two steps here. A thread holds any number of handles of both kinds, gives them to
-- other threads, and makes one call at a time.
mod Counting
mod Exactness
mod Invariant
mod Gaining
mod Losing
mod Using
mod Steps
pub mod Safety
mod Tests
use rust_atomics_and_locks.Base.{
  ℕ, suc, ◌+◌, ◌-◌, ◌≡◌, Bool, true, false, ◌&&◌, Option, none, some, List, if◌then◌else◌, put, run,
  ltb, ◌==◌,
}
use rust_atomics_and_locks.Memory.{
  View, Local, fresh, join, relaxed, acquire, release, Atomic, new, load, compare_exchange_weak,
  fetch_add, fetch_sub, fence_acquire, Cell, cell, touch, note,
}
use rust_atomics_and_locks.Arc.Word.{modulus, max_half}

-- Between two calls; in `Arc::clone` between its two additions; in `upgrade` with the value that it
-- read, and past its exchange; past an addition that aborts, of a `Weak` and of an `Arc`; in the
-- `drop` of the last `Arc`; before the `drop` of the `Weak` inside an `Arc`; past the `fetch_sub`
-- that frees; with the mutable reference of `get_mut`; past a failed assertion.
pub data Pc : Type 0 where
  idle cloning upgraded aborting_weak aborting_arc last_arc dropping last exclusive panicked : Pc
  upgrading : (n : ℕ) → Pc

pub record Thread : Type 0 where
  pub arcs : ℕ
  pub weaks : ℕ
  pub pc : Pc
  pub local : Local

-- `dropped` says how often the data was dropped, and `freed` how often the box was; neither is in
-- the source.
pub record ArcData (T : Type 0) : Type 0 where
  pub data_ref_count : Atomic ℕ
  pub alloc_ref_count : Atomic ℕ
  pub content : Cell (Option T)
  pub dropped : ℕ
  pub freed : ℕ
  pub aborted : Bool
  pub threads : ℕ → Thread

pub data Action (T : Type 0) : Type 0 where
  clone count_data downgrade clone_weak upgrade count_alloc drop clear drop_inner drop_weak free
        get_mut deref abort :
      Action T
  exchange : (spurious : Bool) → Action T
  give give_weak : (j : ℕ) → Action T
  write : (f : T → T) → Action T

-- `Arc::new(data)`, called by thread 0
unfoldable pub start : {T : Type 0} → T → ArcData T
start v = record {
  data_ref_count = new 1;
  alloc_ref_count = new 1;
  content = cell (some v);
  dropped = 0;
  freed = 0;
  aborted = false;
  threads = λ i. record { arcs = if i == 0 then 1 else 0; weaks = 0; pc = idle; local = fresh };
}

abbrev pub present : {T : Type 0} → Option T → ℕ
present (some v) = 1
present none = 0

abbrev pub modified : {T : Type 0} → (T → T) → Option T → Option T
modified f (some v) = some (f v)
modified f none = none

-- The giver, and then the receiver.
abbrev pub given : Thread → Thread
given t = record t { arcs = t.arcs - 1 }

abbrev pub received : View → Thread → Thread
received known t = record t {
  arcs = t.arcs + 1;
  local = record { seen = join t.local.seen known; unfenced = t.local.unfenced };
}

abbrev pub given_weak : Thread → Thread
given_weak t = record t { weaks = t.weaks - 1 }

abbrev pub received_weak : View → Thread → Thread
received_weak known t = record t {
  weaks = t.weaks + 1;
  local = record { seen = join t.local.seen known; unfenced = t.local.unfenced };
}

-- The value that `upgrade` has read is tested at the head of its loop.
abbrev pub looked_at : ℕ → Pc
looked_at n = if n == 0 then idle else upgrading n

module _ {T : Type 0} where
  -- `alloc_ref_count.fetch_add(1, Relaxed)` in `Weak::clone`
  abbrev pub alloc_added : ArcData T → Thread → ℕ × Atomic ℕ × Local
  alloc_added s t = fetch_add modulus relaxed 1 s.alloc_ref_count t.local

  abbrev pub weak_cloned : ArcData T → Thread → Thread
  weak_cloned s t =
      let r = alloc_added s t in
      if ltb max_half r.0
      then record t { pc = aborting_weak; local = r.2 }
      else record t { weaks = t.weaks + 1; local = r.2 }

  -- `Weak::clone`, by which `Arc::downgrade` works too.
  pub add_weak : ℕ → ArcData T → ArcData T
  add_weak i s = record s {
    alloc_ref_count = (alloc_added s (s.threads i)).1;
    threads = put s.threads i (weak_cloned s (s.threads i));
  }

  abbrev pub begun_clone : ArcData T → Thread → Thread
  begun_clone s t =
      let r = alloc_added s t in
      record t { pc = if ltb max_half r.0 then aborting_weak else cloning; local = r.2 }

  -- `let weak = self.weak.clone();` in `Arc::clone`
  pub begin_clone : ℕ → ArcData T → ArcData T
  begin_clone i s = record s {
    alloc_ref_count = (alloc_added s (s.threads i)).1;
    threads = put s.threads i (begun_clone s (s.threads i));
  }

  abbrev pub finished_clone : ArcData T → Thread → Thread
  finished_clone s t =
      let r = fetch_add modulus relaxed 1 s.data_ref_count t.local in
      if ltb max_half r.0
      then record t { pc = aborting_arc; local = r.2 }
      else record t { arcs = t.arcs + 1; pc = idle; local = r.2 }

  -- `if weak.data().data_ref_count.fetch_add(1, Relaxed) > usize::MAX / 2 { abort() }`
  pub finish_clone : ℕ → ArcData T → ArcData T
  finish_clone i s = record s {
    data_ref_count = (fetch_add modulus relaxed 1 s.data_ref_count (s.threads i).local).1;
    threads = put s.threads i (finished_clone s (s.threads i));
  }

  abbrev pub loaded : ArcData T → Thread → Thread
  loaded s t =
      let r = load relaxed s.data_ref_count t.local in record t { pc = looked_at r.0; local = r.1 }

  -- `let mut n = self.data().data_ref_count.load(Relaxed); if n == 0 { return None; }`
  pub begin_upgrade : ℕ → ArcData T → ArcData T
  begin_upgrade i s = record s { threads = put s.threads i (loaded s (s.threads i)) }

  abbrev pub exchanged : Bool → ℕ → ArcData T → Thread → Bool × ℕ × Atomic ℕ × Local
  exchanged spurious n s t =
      compare_exchange_weak spurious relaxed relaxed (λ v. v == n) (n + 1) s.data_ref_count t.local

  abbrev pub tried : Bool → ℕ → ArcData T → Thread → Thread
  tried spurious n s t =
      let r = exchanged spurious n s t in
      record t { pc = if r.0 then upgraded else looked_at r.1; local = r.3 }

  -- `data_ref_count.compare_exchange_weak(n, n + 1, Relaxed, Relaxed)`
  pub try_upgrade : ℕ → Bool → ℕ → ArcData T → ArcData T
  try_upgrade i spurious n s = record s {
    data_ref_count = (exchanged spurious n s (s.threads i)).2;
    threads = put s.threads i (tried spurious n s (s.threads i));
  }

  -- `assert!(n < usize::MAX)` fails.
  pub fail_assertion : ℕ → ArcData T → ArcData T
  fail_assertion i s = record s {
    threads = put s.threads i (record (s.threads i) { pc = panicked });
  }

  abbrev pub upgrade_done : ArcData T → Thread → Thread
  upgrade_done s t =
      let r = alloc_added s t in
      if ltb max_half r.0
      then record t { pc = aborting_arc; local = r.2 }
      else record t { arcs = t.arcs + 1; pc = idle; local = r.2 }

  -- `return Some(Arc { weak: self.clone() })`
  pub finish_upgrade : ℕ → ArcData T → ArcData T
  finish_upgrade i s = record s {
    alloc_ref_count = (alloc_added s (s.threads i)).1;
    threads = put s.threads i (upgrade_done s (s.threads i));
  }

  abbrev pub arc_dropped : ArcData T → Thread → Thread
  arc_dropped s t =
      let r = fetch_sub modulus release 1 s.data_ref_count t.local in
      record t { arcs = t.arcs - 1; pc = if r.0 == 1 then last_arc else dropping; local = r.2 }

  -- `if self.weak.data().data_ref_count.fetch_sub(1, Release) == 1` in `Arc::drop`
  pub drop_arc : ℕ → ArcData T → ArcData T
  drop_arc i s = record s {
    data_ref_count = (fetch_sub modulus release 1 s.data_ref_count (s.threads i).local).1;
    threads = put s.threads i (arc_dropped s (s.threads i));
  }

  -- `fence(Acquire); (*ptr) = None`
  pub clear_data : ℕ → ArcData T → ArcData T
  clear_data i s =
      let t = s.threads i in
      record s {
        content = touch i none s.content;
        dropped = s.dropped + present s.content.content;
        threads =
            put s.threads i
              (record t { pc = dropping; local = note i s.content (fence_acquire t.local) });
      }

  abbrev pub inner_dropped : ArcData T → Thread → Thread
  inner_dropped s t =
      let r = fetch_sub modulus release 1 s.alloc_ref_count t.local in
      record t { pc = if r.0 == 1 then last else idle; local = r.2 }

  -- The `Weak::drop` of the `Weak` inside an `Arc`, at the end of `Arc::drop`
  pub drop_inner_weak : ℕ → ArcData T → ArcData T
  drop_inner_weak i s = record s {
    alloc_ref_count = (fetch_sub modulus release 1 s.alloc_ref_count (s.threads i).local).1;
    threads = put s.threads i (inner_dropped s (s.threads i));
  }

  abbrev pub weak_dropped : ArcData T → Thread → Thread
  weak_dropped s t =
      let r = fetch_sub modulus release 1 s.alloc_ref_count t.local in
      record t { weaks = t.weaks - 1; pc = if r.0 == 1 then last else idle; local = r.2 }

  -- `if self.data().alloc_ref_count.fetch_sub(1, Release) == 1` in `Weak::drop`
  pub drop_one_weak : ℕ → ArcData T → ArcData T
  drop_one_weak i s = record s {
    alloc_ref_count = (fetch_sub modulus release 1 s.alloc_ref_count (s.threads i).local).1;
    threads = put s.threads i (weak_dropped s (s.threads i));
  }

  -- `fence(Acquire); drop(Box::from_raw(self.ptr.as_ptr()))`, which drops data that is there still.
  pub free_box : ℕ → ArcData T → ArcData T
  free_box i s =
      let t = s.threads i in
      record s {
        content = touch i none s.content;
        dropped = s.dropped + present s.content.content;
        freed = s.freed + 1;
        threads =
            put s.threads i
              (record t { pc = idle; local = note i s.content (fence_acquire t.local) });
      }

  abbrev pub borrowed : ArcData T → Thread → Thread
  borrowed s t =
      let r = load relaxed s.alloc_ref_count t.local in
      if r.0 == 1
      then record t { pc = exclusive; local = fence_acquire r.1 }
      else record t { local = r.1 }

  -- `if arc.weak.data().alloc_ref_count.load(Relaxed) == 1 { fence(Acquire); Some(...) } ...`
  pub borrow : ℕ → ArcData T → ArcData T
  borrow i s = record s { threads = put s.threads i (borrowed s (s.threads i)) }

  -- A write through the mutable reference, which then ends.
  pub update : ℕ → (T → T) → ArcData T → ArcData T
  update i f s =
      let t = s.threads i in
      record s {
        content = touch i (modified f s.content.content) s.content;
        threads = put s.threads i (record t { pc = idle; local = note i s.content t.local });
      }

  -- A read through `deref`.
  pub read : ℕ → ArcData T → ArcData T
  read i s =
      let t = s.threads i in
      record s {
        content = touch i s.content.content s.content;
        threads = put s.threads i (record t { local = note i s.content t.local });
      }

  -- Thread `i` moves an `Arc`, or a `Weak`, to thread `j`.
  pub hand_over : ℕ → ℕ → ArcData T → ArcData T
  hand_over i j s =
      let left = put s.threads i (given (s.threads i)) in
      record s { threads = put left j (received (s.threads i).local.seen (left j)) }

  pub hand_over_weak : ℕ → ℕ → ArcData T → ArcData T
  hand_over_weak i j s =
      let left = put s.threads i (given_weak (s.threads i)) in
      record s { threads = put left j (received_weak (s.threads i).local.seen (left j)) }

  -- An action that needs a handle does not happen without one, nor one that is not the next.
  pub perform : ℕ → ℕ → Pc → Action T → ArcData T → ArcData T
  unfolding add_weak begin_clone finish_clone begin_upgrade try_upgrade fail_assertion
      finish_upgrade drop_arc clear_data drop_inner_weak drop_one_weak free_box borrow update read
      hand_over hand_over_weak
  perform n i idle clone s = if ltb 0 (s.threads i).arcs then begin_clone i s else s
  perform n i idle downgrade s = if ltb 0 (s.threads i).arcs then add_weak i s else s
  perform n i idle drop s = if ltb 0 (s.threads i).arcs then drop_arc i s else s
  perform n i idle get_mut s = if ltb 0 (s.threads i).arcs then borrow i s else s
  perform n i idle deref s = if ltb 0 (s.threads i).arcs then read i s else s
  perform n i idle clone_weak s = if ltb 0 (s.threads i).weaks then add_weak i s else s
  perform n i idle upgrade s = if ltb 0 (s.threads i).weaks then begin_upgrade i s else s
  perform n i idle drop_weak s = if ltb 0 (s.threads i).weaks then drop_one_weak i s else s
  perform n i idle (give j) s = if ltb 0 (s.threads i).arcs && ltb j n then hand_over i j s else s
  perform n i idle (give_weak j) s =
      if ltb 0 (s.threads i).weaks && ltb j n then hand_over_weak i j s else s
  perform n i cloning count_data s = finish_clone i s
  perform n i (upgrading m) (exchange spurious) s =
      if ltb m (modulus - 1) then try_upgrade i spurious m s else fail_assertion i s
  perform n i upgraded count_alloc s = finish_upgrade i s
  perform n i last_arc clear s = clear_data i s
  perform n i dropping drop_inner s = drop_inner_weak i s
  perform n i last free s = free_box i s
  perform n i exclusive (write f) s = update i f s
  perform n i aborting_weak abort s = record s { aborted = true }
  perform n i aborting_arc abort s = record s { aborted = true }
  perform _ _ _ _ s = s

  -- Nothing happens after the process has aborted.
  unfoldable pub step : ℕ → ℕ × Action T → ArcData T → ArcData T
  unfolding perform
  step n (i, e) s = if s.aborted then s else if ltb i n then perform n i (s.threads i).pc e s else s

  -- The allocation after the `n` threads have run.
  unfoldable pub after : ℕ → List (ℕ × Action T) → T → ArcData T
  unfolding step start run
  after n es v = run (step n) es (start v)
