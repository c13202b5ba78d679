-- ===== src/Arc/Weak/Using.antt =====
-- The operations on the data, and moves of handles, keep the invariant.
use rust_atomics_and_locks.Base.{ℕ, ◌+◌, ◌*◌, ◌<◌, ◌≡◌, arith}
use rust_atomics_and_locks.Arc.Word.{max_half}
use rust_atomics_and_locks.Arc.Weak.{
  idle, exclusive, ArcData, borrowed, borrow, update, read, hand_over, hand_over_weak,
}
use rust_atomics_and_locks.Memory.{note}
use rust_atomics_and_locks.Arc.Weak.Invariant.{Inv}
use rust_atomics_and_locks.Arc.Weak.Counting.{
  alloc_bounded, data_bounded, alloc-le, data-le, two_owed,
}
use rust_atomics_and_locks.Arc.Weak.Exactness.{
  still-Counted, hand_over-Counted, hand_over_weak-Counted,
}

module _ {T : Type 0} {n : ℕ} {s : ArcData T} (few : 2 * n + 2 < max_half) (inv : Inv n s) (i : ℕ)
    (lt : i < n) where
  open inv use {
    count, freed_once, alive, last_dead, last_one, settled, whole, undropped, clearing,
    clearing_one, cleared, alone, cloner, upgrader, upgrader_done, sound,
  }

  pub borrow-Inv : (s.threads i).pc ≡ idle → 0 < (s.threads i).arcs → Inv n (borrow i s)
  unfolding borrow
  borrow-Inv at some = record {
    count =
        still-Counted s count few i lt (borrowed s (s.threads i)) (ground arith) (ground arith)
          (ground arith);
    freed_once = freed_once;
    alive = λ h. ground (arith, alive, alloc_bounded count few, alloc-le count i lt);
    last_dead =
        λ j l h. ground (arith, last_dead j, alive, alloc_bounded count few, alloc-le count i lt);
    last_one = λ j k l l' h h'. ground (
      arith,
      last_one j k,
      last_dead j,
      last_dead k,
      alloc_bounded count few,
      alloc-le count i lt,
    );
    settled = λ h. ground (arith, settled, alloc_bounded count few, alloc-le count i lt);
    whole = ground (arith, whole);
    undropped = λ h. ground (arith, undropped, data_bounded count few, data-le count i lt);
    clearing =
        λ j l h. ground (arith, clearing j, undropped, data_bounded count few, data-le count i lt);
    clearing_one = λ j k l l' h h'. ground (
      arith,
      clearing_one j k,
      clearing j,
      clearing k,
      data_bounded count few,
      data-le count i lt,
    );
    cleared = λ h. ground (arith, cleared, data_bounded count few, data-le count i lt);
    alone = λ j l h.
        ground
          (arith, alone j, two_owed count i j lt, alloc_bounded count few, alloc-le count i lt);
    cloner = λ j l h. ground (arith, cloner j);
    upgrader = λ j m l h. ground (arith, upgrader j m);
    upgrader_done = λ j l h. ground (arith, upgrader_done j);
    sound = λ j l h. ground (arith, sound j);
  }

  pub update-Inv : (f : T → T) → (s.threads i).pc ≡ exclusive → Inv n (update i f s)
  unfolding update
  update-Inv f at = record {
    count =
        still-Counted s count few i lt
          (record (s.threads i) { pc = idle; local = note i s.content (s.threads i).local })
          (ground arith) (ground arith) (ground arith);
    freed_once = freed_once;
    alive = λ h. ground (arith, alive, alloc_bounded count few, alloc-le count i lt);
    last_dead =
        λ j l h. ground (arith, last_dead j, alive, alloc_bounded count few, alloc-le count i lt);
    last_one = λ j k l l' h h'. ground (
      arith,
      last_one j k,
      last_dead j,
      last_dead k,
      alloc_bounded count few,
      alloc-le count i lt,
    );
    settled = λ h. ground (arith, settled, alloc_bounded count few, alloc-le count i lt);
    whole = ground (arith, whole);
    undropped = λ h. ground (arith, undropped, data_bounded count few, data-le count i lt);
    clearing =
        λ j l h. ground (arith, clearing j, undropped, data_bounded count few, data-le count i lt);
    clearing_one = λ j k l l' h h'. ground (
      arith,
      clearing_one j k,
      clearing j,
      clearing k,
      data_bounded count few,
      data-le count i lt,
    );
    cleared = λ h. ground (arith, cleared, data_bounded count few, data-le count i lt);
    alone = λ j l h.
        ground
          (arith, alone j, two_owed count i j lt, alloc_bounded count few, alloc-le count i lt);
    cloner = λ j l h. ground (arith, cloner j);
    upgrader = λ j m l h. ground (arith, upgrader j m);
    upgrader_done = λ j l h. ground (arith, upgrader_done j);
    sound = λ j l h. ground (arith, sound j);
  }

  pub read-Inv : (s.threads i).pc ≡ idle → Inv n (read i s)
  unfolding read
  read-Inv at = record {
    count =
        still-Counted s count few i lt
          (record (s.threads i) { local = note i s.content (s.threads i).local }) (ground arith)
          (ground arith) (ground arith);
    freed_once = freed_once;
    alive = λ h. ground (arith, alive, alloc_bounded count few, alloc-le count i lt);
    last_dead =
        λ j l h. ground (arith, last_dead j, alive, alloc_bounded count few, alloc-le count i lt);
    last_one = λ j k l l' h h'. ground (
      arith,
      last_one j k,
      last_dead j,
      last_dead k,
      alloc_bounded count few,
      alloc-le count i lt,
    );
    settled = λ h. ground (arith, settled, alloc_bounded count few, alloc-le count i lt);
    whole = ground (arith, whole);
    undropped = λ h. ground (arith, undropped, data_bounded count few, data-le count i lt);
    clearing =
        λ j l h. ground (arith, clearing j, undropped, data_bounded count few, data-le count i lt);
    clearing_one = λ j k l l' h h'. ground (
      arith,
      clearing_one j k,
      clearing j,
      clearing k,
      data_bounded count few,
      data-le count i lt,
    );
    cleared = λ h. ground (arith, cleared, data_bounded count few, data-le count i lt);
    alone = λ j l h.
        ground
          (arith, alone j, two_owed count i j lt, alloc_bounded count few, alloc-le count i lt);
    cloner = λ j l h. ground (arith, cloner j);
    upgrader = λ j m l h. ground (arith, upgrader j m);
    upgrader_done = λ j l h. ground (arith, upgrader_done j);
    sound = λ j l h. ground (arith, sound j);
  }

  pub hand_over-Inv :
      (j : ℕ) (lj : j < n)
      → (s.threads i).pc ≡ idle
      → 0 < (s.threads i).arcs
      → Inv n (hand_over i j s)
  unfolding hand_over
  hand_over-Inv j lj at some = record {
    count = hand_over-Counted s count few i lt j lj at some;
    freed_once = freed_once;
    alive = alive;
    last_dead = λ m l h. ground (arith, last_dead m, alloc-le count i lt);
    last_one = λ m k l l' h h'. ground (arith, last_one m k);
    settled = λ h. ground (arith, settled, alloc_bounded count few, alloc-le count i lt);
    whole = ground (arith, whole);
    undropped = undropped;
    clearing = λ m l h. ground (arith, clearing m);
    clearing_one = λ m k l l' h h'. ground (arith, clearing_one m k);
    cleared = λ h. ground (arith, cleared);
    alone = λ m l h. ground (arith, alone m, two_owed count i m lt);
    cloner = λ m l h. ground (arith, cloner m);
    upgrader = λ m k l h. ground (arith, upgrader m k);
    upgrader_done = λ m l h. ground (arith, upgrader_done m);
    sound = λ m l h. ground (arith, sound m);
  }

  pub hand_over_weak-Inv :
      (j : ℕ) (lj : j < n)
      → (s.threads i).pc ≡ idle
      → 0 < (s.threads i).weaks
      → Inv n (hand_over_weak i j s)
  unfolding hand_over_weak
  hand_over_weak-Inv j lj at some = record {
    count = hand_over_weak-Counted s count few i lt j lj at some;
    freed_once = freed_once;
    alive = alive;
    last_dead = λ m l h. ground (arith, last_dead m, alloc-le count i lt);
    last_one = λ m k l l' h h'. ground (arith, last_one m k);
    settled = λ h. ground (arith, settled, alloc_bounded count few, alloc-le count i lt);
    whole = ground (arith, whole);
    undropped = undropped;
    clearing = λ m l h. ground (arith, clearing m);
    clearing_one = λ m k l l' h h'. ground (arith, clearing_one m k);
    cleared = λ h. ground (arith, cleared);
    alone = λ m l h. ground (arith, alone m, two_owed count i m lt);
    cloner = λ m l h. ground (arith, cloner m);
    upgrader = λ m k l h. ground (arith, upgrader m k);
    upgrader_done = λ m l h. ground (arith, upgrader_done m);
    sound = λ m l h. ground (arith, sound m);
  }
