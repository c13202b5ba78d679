-- ===== src/Arc/Optimized/Handles.antt =====
-- The allocation of examples/06-03_optimization.rs, and what a thread holds of it.
use rust_atomics_and_locks.Base.{ℕ, ◌+◌, ◌-◌, Bool, false, if◌then◌else◌, ◌==◌}
use rust_atomics_and_locks.Memory.{View, Local, fresh, join, Atomic, new, Cell, cell, fence_acquire}

-- Between two calls; past an addition that aborts; in the loop of `upgrade` and of `downgrade`, with
-- the value that it read; in the `drop` of the last `Arc`, before the data is dropped and after;
-- past the `fetch_sub` that frees; in `get_mut`, with `alloc_ref_count` locked, and with the answer
-- to its test; with the mutable reference; past a failed assertion.
pub data Pc : Type 0 where
  idle aborting last_arc dropping last locking exclusive panicked : Pc
  upgrading : (n : ℕ) → Pc
  downgrading : (n : ℕ) → Pc
  tested : (is_unique : Bool) → Pc

pub record Thread : Type 0 where
  pub arcs : ℕ
  pub weaks : ℕ
  pub pc : Pc
  pub local : Local

-- `dropped` says how often the data was
-- dropped, and `freed` how often the box was; neither is in the source.
pub record ArcData (T : Type 0) : Type 0 where
  pub data_ref_count : Atomic ℕ
  pub alloc_ref_count : Atomic ℕ
  pub content : Cell T
  pub dropped : ℕ
  pub freed : ℕ
  pub aborted : Bool
  pub threads : ℕ → Thread

pub data Action (T : Type 0) : Type 0 where
  clone clone_weak upgrade downgrade spin drop drop_data drop_implicit drop_weak free get_mut unlock
        deref abort :
      Action T
  exchange : (spurious : Bool) → Action T
  give give_weak : (j : ℕ) → Action T
  write : (f : T → T) → Action T
  test : (seen : ℕ) → Action T

-- `Arc::new(data)`, called by thread 0
unfoldable pub start : {T : Type 0} → T → ArcData T
start v = record {
  data_ref_count = new 1;
  alloc_ref_count = new 1;
  content = cell v;
  dropped = 0;
  freed = 0;
  aborted = false;
  threads = λ i. record { arcs = if i == 0 then 1 else 0; weaks = 0; pc = idle; local = fresh };
}

-- The giver, and then the receiver.
abbrev pub given : Thread → Thread
given t = record t { arcs = t.arcs - 1 }

abbrev pub received : View → Thread → Thread
received known t = record t {
  arcs = t.arcs + 1;
  local = record { seen = join t.local.seen known; unfenced = t.local.unfenced };
}

abbrev pub given_weak : Thread → Thread
given_weak t = record t { weaks = t.weaks - 1 }

abbrev pub received_weak : View → Thread → Thread
received_weak known t = record t {
  weaks = t.weaks + 1;
  local = record { seen = join t.local.seen known; unfenced = t.local.unfenced };
}

-- The value that `upgrade` has read is tested at the head of its loop.
abbrev pub looked_at : ℕ → Pc
looked_at n = if n == 0 then idle else upgrading n

-- `get_mut` after its test.
abbrev pub unlocked : Bool → Thread → Thread
unlocked is_unique t =
    if is_unique
    then record t { pc = exclusive; local = fence_acquire t.local }
    else record t { pc = idle }
