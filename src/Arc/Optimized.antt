-- ===== src/Arc/Optimized.antt =====
-- examples/06-03_optimization.rs: an `Arc` whose handles share one implicit weak pointer, and the
-- `n` threads that hold its handles.
--
-- `get_mut` locks `alloc_ref_count` by `usize::MAX` for two steps, during which `downgrade` spins.
-- A thread holds any number of handles of both kinds, gives them to other threads, and makes one
-- call at a time. What the relaxed load of `get_mut` returns is left open, since it may be an old
-- value of the count. So the model also has runs in which `get_mut` gives a reference while there
-- are other `Arc`s, and that its reference is the only one is not shown.
mod Handles
mod Counts
mod Access
mod Tally
mod Counting
mod Releasing
mod Life
mod Gaining
mod Downgrading
mod Losing
mod Using
mod Moving
mod Idling
mod Views
mod Knowing
mod Ending
mod Sharing
mod BoxSharing
mod BoxEnding
mod Steps
pub mod Safety
mod Tests
use rust_atomics_and_locks.Base.{
  ℕ, suc, ◌+◌, ◌-◌, ◌≡◌, Bool, true, false, ◌&&◌, List, if◌then◌else◌, put, run, ltb, ◌==◌,
}
use rust_atomics_and_locks.Memory.{
  View, Local, relaxed, acquire, release, Atomic, load, store, compare_exchange,
  compare_exchange_weak, fetch_add, fetch_sub, fence_acquire, touch, note,
}
use rust_atomics_and_locks.Arc.Word.{modulus, max_half}
unfoldable pub use Handles.*
unfoldable pub use Counts.*
unfoldable pub use Access.*

module _ {T : Type 0} where
  -- An action that needs a handle does not happen without one, nor one that is not the next.
  pub perform : ℕ → ℕ → Pc → Action T → ArcData T → ArcData T
  unfolding clone_arc clone_one_weak begin_upgrade try_upgrade load_alloc try_downgrade
      fail_assertion drop_arc drop_content drop_implicit_weak drop_one_weak free_box try_lock
      test_unique unlock_alloc update read hand_over hand_over_weak
  perform n i idle clone s = if ltb 0 (s.threads i).arcs then clone_arc i s else s
  perform n i idle downgrade s = if ltb 0 (s.threads i).arcs then load_alloc i s else s
  perform n i idle drop s = if ltb 0 (s.threads i).arcs then drop_arc i s else s
  perform n i idle get_mut s = if ltb 0 (s.threads i).arcs then try_lock i s else s
  perform n i idle deref s = if ltb 0 (s.threads i).arcs then read i s else s
  perform n i idle clone_weak s = if ltb 0 (s.threads i).weaks then clone_one_weak i s else s
  perform n i idle upgrade s = if ltb 0 (s.threads i).weaks then begin_upgrade i s else s
  perform n i idle drop_weak s = if ltb 0 (s.threads i).weaks then drop_one_weak i s else s
  perform n i idle (give j) s = if ltb 0 (s.threads i).arcs && ltb j n then hand_over i j s else s
  perform n i idle (give_weak j) s =
      if ltb 0 (s.threads i).weaks && ltb j n then hand_over_weak i j s else s
  perform n i (upgrading m) (exchange b) s =
      if ltb m (modulus - 1) then try_upgrade i b m s else fail_assertion i s
  perform n i (downgrading m) spin s = if m == modulus - 1 then load_alloc i s else s
  perform n i (downgrading m) (exchange b) s =
      if m == modulus - 1
      then s
      else if ltb m (modulus - 2)
      then try_downgrade i b m s
      else fail_assertion i s
  perform n i last_arc drop_data s = drop_content i s
  perform n i dropping drop_implicit s = drop_implicit_weak i s
  perform n i last free s = free_box i s
  perform n i locking (test seen) s = test_unique i seen s
  perform n i (tested u) unlock s = unlock_alloc i u s
  perform n i exclusive (write f) s = update i f s
  perform n i aborting abort s = record s { aborted = true }
  perform _ _ _ _ s = s

  -- Nothing happens after the process has aborted.
  unfoldable pub step : ℕ → ℕ × Action T → ArcData T → ArcData T
  unfolding perform
  step n (i, e) s = if s.aborted then s else if ltb i n then perform n i (s.threads i).pc e s else s

  -- The allocation after the `n` threads have run.
  unfoldable pub after : ℕ → List (ℕ × Action T) → T → ArcData T
  unfolding step start run
  after n es v = run (step n) es (start v)
