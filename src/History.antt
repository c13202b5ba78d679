-- ===== src/History.antt =====
-- Atomics whose relaxed loads may return old values, for the examples of chapter 3.
--
-- A location keeps every value that was stored to it, numbered from its first value, 0, in the
-- order of the stores. A view says, for each location, which store is the newest that is known.
-- A load may return any store that is not older than what the loading thread knows; the event
-- that performs the load says which. Where `Memory` counts the accesses to one protected cell,
-- this machine is about values. No load returns a value before its store.
pub mod MessagePassing
pub mod Fence
pub mod Adding
pub mod TotalOrder
use rust_atomics_and_locks.Base.{
  ℕ, ◌+◌, ◌%◌, ◌^◌, ◌≤◌, Bool, true, false, ◌&&◌, max, if◌then◌else◌, put, leb,
}
use rust_atomics_and_locks.Memory.{
  Ordering, relaxed, seq_cst, acquires, releases, View, join, nothing,
}

-- A stored value, with the view that an acquiring load takes over.
pub record Message : Type 0 where
  pub value : ℕ
  pub view : View

-- `newest` is the number of the last store to each location, and `total` that of the last
-- sequentially consistent one. A Boolean is 0 or 1.
pub record Store : Type 0 where
  pub newest : View
  pub message : ℕ → ℕ → Message
  pub total : View

-- What a thread knows, and what it will after an acquire fence.
pub record Known : Type 0 where
  pub seen : View
  pub unfenced : View

abbrev pub initial : Store
initial = record {
  newest = nothing;
  message = λ x t. record { value = 0; view = nothing };
  total = nothing;
}

abbrev pub unaware : Known
unaware = record { seen = nothing; unfenced = nothing }

abbrev pub is_seq_cst : Ordering → Bool
is_seq_cst seq_cst = true
is_seq_cst _ = false

-- May a load of `x` return the store numbered `t`?
abbrev pub readable : Ordering → ℕ → ℕ → Store → Known → Bool
readable o x t m k =
    leb (k.seen x) t && leb t (m.newest x) && (if is_seq_cst o then leb (m.total x) t else true)

-- `x.load(o)`, returning that store.
abbrev pub load : Ordering → ℕ → ℕ → Store → Known → ℕ × Known
load o x t m k =
    let found = m.message x t in
    (
      found.value,
      record {
        seen =
            put (if acquires o then join k.seen found.view else k.seen) x
              (max t (if acquires o then found.view x else t));
        unfenced = join k.unfenced found.view;
      },
    )

-- A store or a read-modify-write: `released` is what it publishes beside itself.
abbrev pub append : Ordering → ℕ → ℕ → View → Store → Store
append o x v released m = record {
  newest = put m.newest x (m.newest x + 1);
  message = put m.message x (
      put (m.message x) (m.newest x + 1)
        (record { value = v; view = put released x (m.newest x + 1) }));
  total = if is_seq_cst o then put m.total x (m.newest x + 1) else m.total;
}

abbrev pub aware : ℕ → Store → Known → Known
aware x m k = record { seen = put k.seen x (m.newest x + 1); unfenced = k.unfenced }

-- `x.store(v, o)`
abbrev pub store : Ordering → ℕ → ℕ → Store → Known → Store × Known
store o x v m k = (append o x v (if releases o then k.seen else nothing) m, aware x m k)

-- A relaxed read-modify-write: it reads the newest store, and continues its release sequence.
abbrev pub update_relaxed : ℕ → (ℕ → ℕ) → Store → Known → Store × Known
update_relaxed x f m k =
    let found = m.message x (m.newest x) in
    (append relaxed x (f found.value) found.view m, aware x m k)

-- `x.fetch_add(v, Relaxed)` of 32 bits
abbrev pub fetch_add_relaxed : ℕ → ℕ → Store → Known → Store × Known
fetch_add_relaxed x v = update_relaxed x (λ w. (w + v) % 2 ^ 32)

-- `fence(Ordering::Acquire)`
abbrev pub acquire_fence : Known → Known
acquire_fence k = record { seen = join k.seen k.unfenced; unfenced = k.unfenced }
