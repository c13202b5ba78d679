-- ===== src/Arc/Weak/Losing.antt =====
-- The operations that drop handles keep the invariant.
use rust_atomics_and_locks.Base.{ℕ, ◌+◌, ◌*◌, ◌<◌, ◌≡◌, inl, inr, arith}
use rust_atomics_and_locks.Arc.Word.{max_half}
use rust_atomics_and_locks.Arc.Weak.{
  idle, last_arc, dropping, last, ArcData, drop_arc, clear_data, drop_inner_weak, drop_one_weak,
  free_box,
}
use rust_atomics_and_locks.Memory.{note, fence_acquire}
use rust_atomics_and_locks.Arc.Weak.Invariant.{Inv, no_data}
use rust_atomics_and_locks.Arc.Weak.Counting.{
  alloc_bounded, data_bounded, alloc-le, data-le, two_owed,
}
use rust_atomics_and_locks.Arc.Weak.Exactness.{
  drop_arc-Counted, drop_inner_weak-Counted, drop_one_weak-Counted, still-Counted,
}

module _ {T : Type 0} {n : ℕ} {s : ArcData T} (few : 2 * n + 2 < max_half) (inv : Inv n s) (i : ℕ)
    (lt : i < n) where
  open inv use {
    count, freed_once, alive, last_dead, last_one, settled, whole, undropped, clearing,
    clearing_one, cleared, alone, cloner, upgrader, upgrader_done, sound,
  }

  pub drop_arc-Inv : (s.threads i).pc ≡ idle → 0 < (s.threads i).arcs → Inv n (drop_arc i s)
  unfolding drop_arc
  drop_arc-Inv at some = record {
    count = drop_arc-Counted s count few i lt at some;
    freed_once = freed_once;
    alive = λ h. ground (arith, alive, alloc_bounded count few, alloc-le count i lt);
    last_dead =
        λ j l h. ground (arith, last_dead j, alive, alloc_bounded count few, alloc-le count i lt);
    last_one = λ j k l l' h h'. ground (
      arith,
      last_one j k,
      last_dead j,
      last_dead k,
      alloc_bounded count few,
      alloc-le count i lt,
    );
    settled = λ h. ground (arith, settled, alloc_bounded count few, alloc-le count i lt);
    whole = ground (arith, whole);
    undropped = λ h. ground (arith, undropped, data_bounded count few, data-le count i lt);
    clearing =
        λ j l h. ground (arith, clearing j, undropped, data_bounded count few, data-le count i lt);
    clearing_one = λ j k l l' h h'. ground (
      arith,
      clearing_one j k,
      clearing j,
      clearing k,
      data_bounded count few,
      data-le count i lt,
    );
    cleared = λ h. inr (i, lt, ground (arith, data_bounded count few, data-le count i lt));
    alone = λ j l h.
        ground
          (arith, alone j, two_owed count i j lt, alloc_bounded count few, alloc-le count i lt);
    cloner = λ j l h. ground (arith, cloner j);
    upgrader = λ j m l h. ground (arith, upgrader j m);
    upgrader_done = λ j l h. ground (arith, upgrader_done j);
    sound = λ j l h. ground (arith, sound j);
  }

  pub clear_data-Inv : (s.threads i).pc ≡ last_arc → Inv n (clear_data i s)
  unfolding clear_data
  clear_data-Inv at = record {
    count =
        still-Counted s count few i lt
          (record (s.threads i) {
            pc = dropping;
            local = note i s.content (fence_acquire (s.threads i).local);
          })
          (ground arith) (ground arith) (ground arith);
    freed_once = freed_once;
    alive = λ h. ground (arith, alive, alloc_bounded count few, alloc-le count i lt);
    last_dead =
        λ j l h. ground (arith, last_dead j, alive, alloc_bounded count few, alloc-le count i lt);
    last_one = λ j k l l' h h'. ground (
      arith,
      last_one j k,
      last_dead j,
      last_dead k,
      alloc_bounded count few,
      alloc-le count i lt,
    );
    settled = λ h. ground (arith, settled, alloc_bounded count few, alloc-le count i lt);
    whole = ground (arith, whole);
    undropped = λ h. ground (arith, clearing i lt);
    clearing = λ j l h. ground (arith, clearing_one i j);
    clearing_one = λ j k l l' h h'. ground (
      arith,
      clearing_one j k,
      clearing j,
      clearing k,
      data_bounded count few,
      data-le count i lt,
    );
    cleared = λ h. inl (ground (arith, whole, clearing i lt));
    alone = λ j l h.
        ground
          (arith, alone j, two_owed count i j lt, alloc_bounded count few, alloc-le count i lt);
    cloner = λ j l h. ground (arith, cloner j);
    upgrader = λ j m l h. ground (arith, upgrader j m);
    upgrader_done = λ j l h. ground (arith, upgrader_done j);
    sound = λ j l h. ground (arith, sound j);
  }

  pub drop_inner_weak-Inv : (s.threads i).pc ≡ dropping → Inv n (drop_inner_weak i s)
  unfolding drop_inner_weak
  drop_inner_weak-Inv at = record {
    count = drop_inner_weak-Counted s count few i lt at;
    freed_once = freed_once;
    alive = λ h. ground (arith, alive, alloc_bounded count few, alloc-le count i lt);
    last_dead =
        λ j l h. ground (arith, last_dead j, alive, alloc_bounded count few, alloc-le count i lt);
    last_one = λ j k l l' h h'. ground (
      arith,
      last_one j k,
      last_dead j,
      last_dead k,
      alloc_bounded count few,
      alloc-le count i lt,
    );
    settled = λ h. inr (i, lt, ground (arith, alloc_bounded count few, alloc-le count i lt));
    whole = ground (arith, whole);
    undropped = λ h. ground (arith, undropped, data_bounded count few, data-le count i lt);
    clearing =
        λ j l h. ground (arith, clearing j, undropped, data_bounded count few, data-le count i lt);
    clearing_one = λ j k l l' h h'. ground (
      arith,
      clearing_one j k,
      clearing j,
      clearing k,
      data_bounded count few,
      data-le count i lt,
    );
    cleared = λ h. ground (arith, cleared, data_bounded count few, data-le count i lt);
    alone = λ j l h.
        ground
          (arith, alone j, two_owed count i j lt, alloc_bounded count few, alloc-le count i lt);
    cloner = λ j l h. ground (arith, cloner j);
    upgrader = λ j m l h. ground (arith, upgrader j m);
    upgrader_done = λ j l h. ground (arith, upgrader_done j);
    sound = λ j l h. ground (arith, sound j);
  }

  pub drop_one_weak-Inv :
      (s.threads i).pc ≡ idle → 0 < (s.threads i).weaks → Inv n (drop_one_weak i s)
  unfolding drop_one_weak
  drop_one_weak-Inv at some = record {
    count = drop_one_weak-Counted s count few i lt at some;
    freed_once = freed_once;
    alive = λ h. ground (arith, alive, alloc_bounded count few, alloc-le count i lt);
    last_dead =
        λ j l h. ground (arith, last_dead j, alive, alloc_bounded count few, alloc-le count i lt);
    last_one = λ j k l l' h h'. ground (
      arith,
      last_one j k,
      last_dead j,
      last_dead k,
      alloc_bounded count few,
      alloc-le count i lt,
    );
    settled = λ h. inr (i, lt, ground (arith, alloc_bounded count few, alloc-le count i lt));
    whole = ground (arith, whole);
    undropped = λ h. ground (arith, undropped, data_bounded count few, data-le count i lt);
    clearing =
        λ j l h. ground (arith, clearing j, undropped, data_bounded count few, data-le count i lt);
    clearing_one = λ j k l l' h h'. ground (
      arith,
      clearing_one j k,
      clearing j,
      clearing k,
      data_bounded count few,
      data-le count i lt,
    );
    cleared = λ h. ground (arith, cleared, data_bounded count few, data-le count i lt);
    alone = λ j l h.
        ground
          (arith, alone j, two_owed count i j lt, alloc_bounded count few, alloc-le count i lt);
    cloner = λ j l h. ground (arith, cloner j);
    upgrader = λ j m l h. ground (arith, upgrader j m);
    upgrader_done = λ j l h. ground (arith, upgrader_done j);
    sound = λ j l h. ground (arith, sound j);
  }

  pub free_box-Inv : (s.threads i).pc ≡ last → Inv n (free_box i s)
  unfolding free_box
  free_box-Inv at = record {
    count =
        still-Counted s count few i lt
          (record (s.threads i) {
            pc = idle;
            local = note i s.content (fence_acquire (s.threads i).local);
          })
          (ground arith) (ground arith) (ground arith);
    freed_once = ground (arith, last_dead i lt);
    alive = λ h. ground (arith, last_dead i lt);
    last_dead = λ j l h. ground (arith, last_one i j);
    last_one = λ j k l l' h h'. ground (
      arith,
      last_one j k,
      last_dead j,
      last_dead k,
      alloc_bounded count few,
      alloc-le count i lt,
    );
    settled = λ h. inl (ground (arith, last_dead i lt));
    whole = ground (arith, whole);
    undropped = λ h. ground (arith, last_dead i lt, no_data inv);
    clearing = λ j l h. ground (arith, last_dead i lt, alloc-le count j);
    clearing_one = λ j k l l' h h'. ground (
      arith,
      clearing_one j k,
      clearing j,
      clearing k,
      data_bounded count few,
      data-le count i lt,
    );
    cleared = λ h. inl (ground (arith, whole));
    alone = λ j l h.
        ground
          (arith, alone j, two_owed count i j lt, alloc_bounded count few, alloc-le count i lt);
    cloner = λ j l h. ground (arith, cloner j);
    upgrader = λ j m l h. ground (arith, upgrader j m);
    upgrader_done = λ j l h. ground (arith, upgrader_done j);
    sound = λ j l h. ground (arith, sound j);
  }
