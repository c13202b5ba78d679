-- ===== src/Lib.antt =====
-- A verification library for the examples of "Rust Atomics and Locks": the locks, channels,
-- reference-counted pointers, identifiers and lazy initializations that they build from atomics.
--
-- The program. Each file of examples/ is a program of its own; the later ones of a chapter rework
-- the earlier ones. They share no code, but they have the same parts: atomics with memory
-- orderings, an `UnsafeCell` that the atomics protect, threads, and, from chapter 9 on, a futex.
--
-- What models which part:
--   Base        tests on numbers, families of threads and sums over them, runs of a machine
--   Memory      std::sync::atomic, `UnsafeCell` and what is known to happen before
--   Lock        a spin lock with its guard, for abstract lock and unlock operations:
--               examples/04-03_safe-interface-with-lock-guard.rs
--   SpinLock    the operations: Guarded (04-03), Minimum (04-01_minimum-implementation.rs),
--               Unsafe (04-02_unsafe-spin-lock.rs), Once (03-05-01_lock-example.rs), Corrected and
--               Experiment (07-04-03_experiment.rs)
--   OneShot     a one-shot channel for abstract checks, which RuntimeChecks
--               (05-03_safety-through-runtime-checks.rs), SingleState
--               (05-03_represent_channel_state_with_single_atomic_variable.rs), Typed
--               (05-04_safety-with-types.rs) and Borrowing
--               (05-05_avoiding-memory-allocation-by-using-borrowing.rs) fill in, and Unchecked
--               (05-02_unsafe-oneshot-channel.rs), which does not check
--   Blocking    examples/05-06_blocking.rs
--   Queue       examples/05-01_simple-channel-with-mutex.rs
--   Arc.Basic   examples/06-01_basic-reference-counter.rs and 06-01-02_updating.rs
--   Arc.Weak    examples/06-02_weak-pointer.rs
--   Arc.Optimized  examples/06-03_optimization.rs: Handles has the state, Counts the operations on
--               the two counts, Access `get_mut` and the accesses to the data
--   History     atomics whose loads may return old values, for the examples of chapter 3:
--               MessagePassing (03-05_release-acquire-ordering.rs), TotalOrder
--               (03-07_sequentially-consistent.rs), Fence (03-08_fence.rs) and Adding
--               (03-04_relaxed-ordering.rs and 03-04_relaxed-ordering2.rs)
--   Futex       what the crate atomic_wait promises, a parameter of the mutexes; Futex.Fifo is one
--               that keeps the promise
--   Mutex       a mutex for abstract lock and unlock operations over a futex; Basic (09-01_mutex.rs),
--               Avoiding (09-01-01_avoiding-system-call.rs) and Spinning
--               (09-01-02_further-improvements.rs, of which 09-01-03_benchmark.rs is a copy)
--   Ids         examples/02-02-03_issuing-ids.rs and 02-03-01_issuing-ids-without-overflow.rs
--   Statistics  examples/02-02-02_statistics.rs: Inaccurate has its three atomics, Accurate its mutex,
--               and Summary the statistics of a list, which both are compared with
--   KeyInit     examples/02-03-02_lazy-initialization.rs
--   LazyInit    examples/03-05-02_lazy-initialization-with-dereferences.rs
--
-- How the code is modelled. A component is a record with the atomics, the protected cell and the
-- threads; a thread is a program counter with the locals that are live, and what it knows. One
-- step is one access to an atomic or to the cell, and a list of pairs of a thread and an action is
-- one interleaving; an action that is not the thread's next one leaves the state as it is, so that
-- a theorem about every list is about every interleaving. A failed attempt of a loop is a step that
-- comes back to the loop, and a spurious failure of `compare_exchange_weak` is part of the action.
--
-- Happens-before is modelled by counting each thread's accesses to the cell: a view is what is
-- known of these counts, releasing stores publish it and acquiring loads take it over (Memory).
-- There a load reads the last value stored: that a relaxed load may return an older one is not
-- modelled, so the theorems on data races are about the orderings as written but those on values
-- are about interleavings. One load is left open, that of `data_ref_count` in `get_mut` of the
-- optimized `Arc`: it may return any value. What an `Arc` logs are the accesses to its data and the
-- drop of the data, not the accesses to its counts. For the examples of chapter 3, which are about just that, and the
-- relaxed statistics, History keeps every value stored: a load returns any that is not older than
-- what its thread knows of, so that its theorems on values depend on the orderings too. What the
-- source does not have, such as the log of the writes, the number of times a box was dropped, or a
-- fault for reading an empty slot, is said to be so where it is declared.
--
-- Bounds. A `usize` and a `u64` count modulo 2^64 and a `u32` modulo 2^32. The counts of an `Arc`
-- abort at half of that; the theorems on them ask for fewer threads than that leaves room for. For
-- the optimized `Arc`, which can count more `Weak`s than there are threads, the runs are shorter
-- than half of `usize::MAX` steps, which no computer exceeds. No fuel is used: a run is as long as
-- its list.
--
-- Parameters. `Futex` with the laws `IsFutex`, for the crate atomic_wait and the condition variable;
-- `Parking` with the laws `IsParking`, for `std::thread::park`. Both have an instance in the tests.
-- The keys that KeyInit generates are a parameter too, of which the source's constant is a case.
-- The messages and the protected values are of any type, and an update is any function on it.
--
-- Not modelled: that the reference of the optimized `Arc`'s `get_mut` is exclusive, which rests on
-- loads that cannot be moved before an acquiring one; threads that share one guard; the panics on
-- overflow of debug builds, in place of which sums wrap as in release builds; the stop flag and the
-- progress reports of chapter 2, values that a load would return before their store
-- (examples/03-04_out-of-thin-air.rs), the measurements of chapter 7, and input and output.
-- Destructors of messages do not run code of their own, and panics do not unwind.
pub mod Arc
pub mod Base
pub mod Blocking
pub mod Futex
pub mod History
pub mod Ids
pub mod KeyInit
pub mod LazyInit
pub mod Lock
pub mod Memory
pub mod Mutex
pub mod OneShot
pub mod Queue
pub mod SpinLock
pub mod Statistics
