-- ===== src/Memory.antt =====
-- The atomics of std::sync::atomic that the examples use, with what their orderings promise.
--
-- A protected cell counts the accesses of each thread. A view says, for each thread, how many of
-- its accesses are known to happen before. An atomic carries the view that an acquiring read of
-- its present value takes over: a releasing store publishes the storing thread's view, a relaxed
-- store publishes nothing, and a read-modify-write continues the release sequence, so what was
-- published stays. A relaxed read takes the published view aside, and an acquire fence takes that
-- over. A machine interleaves its threads, and a load reads the last value stored.
use rust_atomics_and_locks.Base.{ℕ, ◌+◌, ◌-◌, ◌%◌, ◌≤◌, Bool, true, false, max, if◌then◌else◌, put}

pub data Ordering : Type 0 where
  relaxed acquire release acq_rel seq_cst : Ordering

abbrev pub acquires : Ordering → Bool
acquires relaxed = false
acquires release = false
acquires _ = true

abbrev pub releases : Ordering → Bool
releases relaxed = false
releases acquire = false
releases _ = true

abbrev pub View : Type 0
View = ℕ → ℕ

abbrev pub nothing : View
nothing j = 0

abbrev pub join : View → View → View
join v w j = max (v j) (w j)

-- `v` knows of every access that `w` counts.
abbrev pub Covers : View → View → Type 0
Covers v w = (j : ℕ) → w j ≤ v j

-- What a thread knows: `seen` happens before its next operation; `unfenced` will after a fence.
pub record Local : Type 0 where
  pub seen : View
  pub unfenced : View

abbrev pub fresh : Local
fresh = record { seen = nothing; unfenced = nothing }

pub record Atomic (A : Type 0) : Type 0 where
  pub value : A
  pub released : View

module _ {A : Type 0} where
  -- `Atomic*::new`
  abbrev pub new : A → Atomic A
  new v = record { value = v; released = nothing }

  -- What a read with this ordering makes of the reader.
  abbrev pub observe : Ordering → Atomic A → Local → Local
  observe o a l = record {
    seen = if acquires o then join l.seen a.released else l.seen;
    unfenced = join l.unfenced a.released;
  }

  -- A read-modify-write's write of `v`.
  abbrev pub replace : Ordering → A → Atomic A → Local → Atomic A
  replace o v a l = record {
    value = v;
    released = if releases o then join a.released l.seen else a.released;
  }

  abbrev pub load : Ordering → Atomic A → Local → A × Local
  load o a l = (a.value, observe o a l)

  abbrev pub store : Ordering → A → Local → Atomic A
  store o v l = record { value = v; released = if releases o then l.seen else nothing }

  abbrev pub swap : Ordering → A → Atomic A → Local → A × Atomic A × Local
  swap o v a l = (a.value, replace o v a (observe o a l), observe o a l)

  -- `same` compares with the expected value. The Boolean result is `is_ok()`; the value that was
  -- read is the content of both `Ok` and `Err`.
  abbrev pub compare_exchange :
      Ordering → Ordering → (A → Bool) → A → Atomic A → Local → Bool × A × Atomic A × Local
  compare_exchange success failure same v a l =
      if same a.value
      then (true, a.value, replace success v a (observe success a l), observe success a l)
      else (false, a.value, a, observe failure a l)

  -- It may fail although the value is the expected one.
  abbrev pub compare_exchange_weak :
      Bool → Ordering → Ordering → (A → Bool) → A → Atomic A → Local → Bool × A × Atomic A × Local
  compare_exchange_weak spurious success failure same v a l =
      if spurious
      then (false, a.value, a, observe failure a l)
      else compare_exchange success failure same v a l

-- `fence(Ordering::Acquire)`
abbrev pub fence_acquire : Local → Local
fence_acquire l = record { seen = join l.seen l.unfenced; unfenced = l.unfenced }

-- Arithmetic wraps at the modulus `m`.
abbrev pub fetch_add : ℕ → Ordering → ℕ → Atomic ℕ → Local → ℕ × Atomic ℕ × Local
fetch_add m o k a l = (a.value, replace o ((a.value + k) % m) a (observe o a l), observe o a l)

abbrev pub fetch_sub : ℕ → Ordering → ℕ → Atomic ℕ → Local → ℕ × Atomic ℕ × Local
fetch_sub m o k a l = (a.value, replace o ((a.value + m - k) % m) a (observe o a l), observe o a l)

-- An `UnsafeCell<T>`: its content, and the accesses that each thread has made.
pub record Cell (T : Type 0) : Type 0 where
  pub content : T
  pub accesses : View

module _ {T : Type 0} where
  abbrev pub cell : T → Cell T
  cell v = record { content = v; accesses = nothing }

  -- Thread `i` reads or writes: the content is then `v`.
  abbrev pub touch : ℕ → T → Cell T → Cell T
  touch i v c = record { content = v; accesses = put c.accesses i (c.accesses i + 1) }

  abbrev pub note : ℕ → Cell T → Local → Local
  note i c l = record {
    seen = join l.seen (put nothing i (c.accesses i + 1));
    unfenced = l.unfenced;
  }
