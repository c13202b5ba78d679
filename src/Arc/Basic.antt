-- ===== src/Arc/Basic.antt =====
-- examples/06-01_basic-reference-counter.rs and 06-01-02_updating.rs: an `Arc` and the `n` threads
-- that hold its handles.
--
-- A thread holds any number of handles. It clones them, reads through them, gives them to other
-- threads, which makes what it knows known to the receiver, drops them, and asks for a mutable
-- reference through one that it borrows exclusively. A clone that finds too many handles aborts
-- the process, in a step of its own, so that other threads may run before.
mod Counting
mod Invariant
mod Steps
mod Sharing
pub mod Safety
mod Tests
use rust_atomics_and_locks.Base.{
  ℕ, suc, ◌+◌, ◌-◌, ◌≤◌, ◌≡◌, Bool, true, false, ◌&&◌, List, [], ◌∷◌, if◌then◌else◌, put, run, ltb,
  ◌==◌,
}
use rust_atomics_and_locks.Memory.{
  View, Local, fresh, join, nothing, relaxed, release, Atomic, new, load, fetch_add, fetch_sub,
  fence_acquire, Cell, cell, touch, note,
}
use rust_atomics_and_locks.Arc.Word.{modulus, max_half}

-- Between two calls; past the `fetch_add` of a `clone` that will abort; past the `fetch_sub` of the
-- `drop` that frees; with the mutable reference of `get_mut`.
pub data Pc : Type 0 where
  idle aborting last exclusive : Pc

pub record Thread : Type 0 where
  pub handles : ℕ
  pub pc : Pc
  pub local : Local

-- The allocation, and its threads. `written` is the view of the accesses up to the last write, and
-- `freed` says how often the box was dropped; neither is in the source.
pub record Arc (T : Type 0) : Type 0 where
  pub ref_count : Atomic ℕ
  pub content : Cell T
  pub written : View
  pub freed : ℕ
  pub aborted : Bool
  pub threads : ℕ → Thread

pub data Action (T : Type 0) : Type 0 where
  clone abort deref drop free get_mut : Action T
  give : (j : ℕ) → Action T
  write : (f : T → T) → Action T

-- `Arc::new(data)`, called by thread 0
unfoldable pub start : {T : Type 0} → T → Arc T
start v = record {
  ref_count = new 1;
  content = cell v;
  written = nothing;
  freed = 0;
  aborted = false;
  threads = λ i. record { handles = if i == 0 then 1 else 0; pc = idle; local = fresh };
}

-- The giver, and then the receiver.
abbrev given : Thread → Thread
given t = record t { handles = t.handles - 1 }

abbrev received : View → Thread → Thread
received known t = record {
  handles = t.handles + 1;
  pc = t.pc;
  local = record { seen = join t.local.seen known; unfenced = t.local.unfenced };
}

module _ {T : Type 0} where
  -- The calling thread after the `fetch_add` of `clone`.
  abbrev cloned : Arc T → Thread → Thread
  cloned s t =
      let r = fetch_add modulus relaxed 1 s.ref_count t.local in
      if ltb max_half r.0
      then record { handles = t.handles; pc = aborting; local = r.2 }
      else record { handles = t.handles + 1; pc = idle; local = r.2 }

  -- `if ref_count.fetch_add(1, Relaxed) > usize::MAX / 2 { abort() }`
  pub clone_handle : ℕ → Arc T → Arc T
  clone_handle i s = record s {
    ref_count = (fetch_add modulus relaxed 1 s.ref_count (s.threads i).local).1;
    threads = put s.threads i (cloned s (s.threads i));
  }

  -- A read through `deref`.
  pub read : ℕ → Arc T → Arc T
  read i s =
      let t = s.threads i in
      record s {
        content = touch i s.content.content s.content;
        threads = put s.threads i (record t { local = note i s.content t.local });
      }

  -- The calling thread after the `fetch_sub` of `drop`.
  abbrev dropped : Arc T → Thread → Thread
  dropped s t =
      let r = fetch_sub modulus release 1 s.ref_count t.local in
      record { handles = t.handles - 1; pc = if r.0 == 1 then last else idle; local = r.2 }

  -- `if ref_count.fetch_sub(1, Release) == 1 { ... }`
  pub drop_handle : ℕ → Arc T → Arc T
  drop_handle i s = record s {
    ref_count = (fetch_sub modulus release 1 s.ref_count (s.threads i).local).1;
    threads = put s.threads i (dropped s (s.threads i));
  }

  -- `fence(Acquire); drop(Box::from_raw(self.ptr.as_ptr()))`
  pub free_box : ℕ → Arc T → Arc T
  free_box i s =
      let t = s.threads i in
      record s {
        content = touch i s.content.content s.content;
        freed = s.freed + 1;
        threads =
            put s.threads i
              (record t { pc = idle; local = note i s.content (fence_acquire t.local) });
      }

  -- The calling thread after the test of `get_mut`.
  abbrev borrowed : Arc T → Thread → Thread
  borrowed s t =
      let r = load relaxed s.ref_count t.local in
      if r.0 == 1
      then record t { pc = exclusive; local = fence_acquire r.1 }
      else record t { local = r.1 }

  -- `if ref_count.load(Relaxed) == 1 { fence(Acquire); Some(...) } else { None }`
  pub borrow : ℕ → Arc T → Arc T
  borrow i s = record s { threads = put s.threads i (borrowed s (s.threads i)) }

  -- A write through the mutable reference, which then ends.
  pub update : ℕ → (T → T) → Arc T → Arc T
  update i f s =
      let t = s.threads i in
      record s {
        content = touch i (f s.content.content) s.content;
        written = (touch i s.content.content s.content).accesses;
        threads = put s.threads i (record t { pc = idle; local = note i s.content t.local });
      }

  -- Thread `i` moves a handle to thread `j`, by a spawn, a join, a channel or a lock.
  pub hand_over : ℕ → ℕ → Arc T → Arc T
  hand_over i j s =
      let left = put s.threads i (given (s.threads i)) in
      record s { threads = put left j (received (s.threads i).local.seen (left j)) }

  -- An action that needs a handle does not happen without one, nor one that is not the next.
  perform : ℕ → ℕ → Pc → Action T → Arc T → Arc T
  unfolding clone_handle read drop_handle free_box borrow update hand_over
  perform n i idle clone s = if ltb 0 (s.threads i).handles then clone_handle i s else s
  perform n i idle deref s = if ltb 0 (s.threads i).handles then read i s else s
  perform n i idle drop s = if ltb 0 (s.threads i).handles then drop_handle i s else s
  perform n i idle get_mut s = if ltb 0 (s.threads i).handles then borrow i s else s
  perform n i idle (give j) s =
      if ltb 0 (s.threads i).handles && ltb j n then hand_over i j s else s
  perform n i aborting abort s = record s { aborted = true }
  perform n i last free s = free_box i s
  perform n i exclusive (write f) s = update i f s
  perform _ _ _ _ s = s

  -- Nothing happens after the process has aborted.
  unfoldable pub step : ℕ → ℕ × Action T → Arc T → Arc T
  unfolding perform
  step n (i, e) s = if s.aborted then s else if ltb i n then perform n i (s.threads i).pc e s else s

  -- The allocation after the `n` threads have run.
  unfoldable pub after : ℕ → List (ℕ × Action T) → T → Arc T
  unfolding step start run
  after n es v = run (step n) es (start v)
