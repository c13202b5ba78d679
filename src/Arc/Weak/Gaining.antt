-- ===== src/Arc/Weak/Gaining.antt =====
-- The operations that make handles keep the invariant.
use rust_atomics_and_locks.Base.{ℕ, ◌+◌, ◌*◌, ◌<◌, ◌≡◌, Bool, arith}
use rust_atomics_and_locks.Arc.Word.{max_half}
use rust_atomics_and_locks.Arc.Weak.{
  idle, cloning, upgrading, upgraded, ArcData, add_weak, begin_clone, finish_clone, begin_upgrade,
  try_upgrade, finish_upgrade, loaded,
}
use rust_atomics_and_locks.Arc.Weak.Invariant.{Inv}
use rust_atomics_and_locks.Arc.Weak.Counting.{
  alloc_bounded, data_bounded, alloc-le, data-le, two_owed,
}
use rust_atomics_and_locks.Arc.Weak.Exactness.{
  add_weak-Counted, begin_clone-Counted, finish_clone-Counted, try_upgrade-Counted,
  finish_upgrade-Counted, still-Counted,
}

module _ {T : Type 0} {n : ℕ} {s : ArcData T} (few : 2 * n + 2 < max_half) (inv : Inv n s) (i : ℕ)
    (lt : i < n) where
  open inv use {
    count, freed_once, alive, last_dead, last_one, settled, whole, undropped, clearing,
    clearing_one, cleared, alone, cloner, upgrader, upgrader_done, sound,
  }

  pub add_weak-Inv :
      (s.threads i).pc ≡ idle → 0 < (s.threads i).arcs + (s.threads i).weaks → Inv n (add_weak i s)
  unfolding add_weak
  add_weak-Inv at some = record {
    count = add_weak-Counted s count few i lt at;
    freed_once = freed_once;
    alive = λ h. ground (arith, alive, alloc_bounded count few, alloc-le count i lt);
    last_dead =
        λ j l h. ground (arith, last_dead j, alive, alloc_bounded count few, alloc-le count i lt);
    last_one = λ j k l l' h h'. ground (
      arith,
      last_one j k,
      last_dead j,
      last_dead k,
      alloc_bounded count few,
      alloc-le count i lt,
    );
    settled = λ h. ground (arith, settled, alloc_bounded count few, alloc-le count i lt);
    whole = ground (arith, whole);
    undropped = λ h. ground (arith, undropped, data_bounded count few, data-le count i lt);
    clearing =
        λ j l h. ground (arith, clearing j, undropped, data_bounded count few, data-le count i lt);
    clearing_one = λ j k l l' h h'. ground (
      arith,
      clearing_one j k,
      clearing j,
      clearing k,
      data_bounded count few,
      data-le count i lt,
    );
    cleared = λ h. ground (arith, cleared, data_bounded count few, data-le count i lt);
    alone = λ j l h.
        ground
          (arith, alone j, two_owed count i j lt, alloc_bounded count few, alloc-le count i lt);
    cloner = λ j l h. ground (arith, cloner j);
    upgrader = λ j m l h. ground (arith, upgrader j m);
    upgrader_done = λ j l h. ground (arith, upgrader_done j);
    sound = λ j l h. ground (arith, sound j);
  }

  pub begin_clone-Inv : (s.threads i).pc ≡ idle → 0 < (s.threads i).arcs → Inv n (begin_clone i s)
  unfolding begin_clone
  begin_clone-Inv at some = record {
    count = begin_clone-Counted s count few i lt at;
    freed_once = freed_once;
    alive = λ h. ground (arith, alive, alloc_bounded count few, alloc-le count i lt);
    last_dead =
        λ j l h. ground (arith, last_dead j, alive, alloc_bounded count few, alloc-le count i lt);
    last_one = λ j k l l' h h'. ground (
      arith,
      last_one j k,
      last_dead j,
      last_dead k,
      alloc_bounded count few,
      alloc-le count i lt,
    );
    settled = λ h. ground (arith, settled, alloc_bounded count few, alloc-le count i lt);
    whole = ground (arith, whole);
    undropped = λ h. ground (arith, undropped, data_bounded count few, data-le count i lt);
    clearing =
        λ j l h. ground (arith, clearing j, undropped, data_bounded count few, data-le count i lt);
    clearing_one = λ j k l l' h h'. ground (
      arith,
      clearing_one j k,
      clearing j,
      clearing k,
      data_bounded count few,
      data-le count i lt,
    );
    cleared = λ h. ground (arith, cleared, data_bounded count few, data-le count i lt);
    alone = λ j l h.
        ground
          (arith, alone j, two_owed count i j lt, alloc_bounded count few, alloc-le count i lt);
    cloner = λ j l h. ground (arith, cloner j);
    upgrader = λ j m l h. ground (arith, upgrader j m);
    upgrader_done = λ j l h. ground (arith, upgrader_done j);
    sound = λ j l h. ground (arith, sound j);
  }

  pub finish_clone-Inv : (s.threads i).pc ≡ cloning → Inv n (finish_clone i s)
  unfolding finish_clone
  finish_clone-Inv at = record {
    count = finish_clone-Counted s count few i lt at;
    freed_once = freed_once;
    alive = λ h. ground (arith, alive, alloc_bounded count few, alloc-le count i lt);
    last_dead =
        λ j l h. ground (arith, last_dead j, alive, alloc_bounded count few, alloc-le count i lt);
    last_one = λ j k l l' h h'. ground (
      arith,
      last_one j k,
      last_dead j,
      last_dead k,
      alloc_bounded count few,
      alloc-le count i lt,
    );
    settled = λ h. ground (arith, settled, alloc_bounded count few, alloc-le count i lt);
    whole = ground (arith, whole);
    undropped =
        λ h. ground (arith, undropped, data_bounded count few, data-le count i lt, cloner i lt);
    clearing = λ j l h.
        ground
          (arith, clearing j, undropped, data_bounded count few, data-le count i lt, cloner i lt);
    clearing_one = λ j k l l' h h'. ground (
      arith,
      clearing_one j k,
      clearing j,
      clearing k,
      data_bounded count few,
      data-le count i lt,
      cloner i lt,
    );
    cleared = λ h. ground (arith, cleared, data_bounded count few, data-le count i lt, cloner i lt);
    alone = λ j l h.
        ground
          (arith, alone j, two_owed count i j lt, alloc_bounded count few, alloc-le count i lt);
    cloner = λ j l h. ground (arith, cloner j);
    upgrader = λ j m l h. ground (arith, upgrader j m);
    upgrader_done = λ j l h. ground (arith, upgrader_done j);
    sound = λ j l h. ground (arith, sound j);
  }

  pub begin_upgrade-Inv :
      (s.threads i).pc ≡ idle → 0 < (s.threads i).weaks → Inv n (begin_upgrade i s)
  unfolding begin_upgrade
  begin_upgrade-Inv at some = record {
    count =
        still-Counted s count few i lt (loaded s (s.threads i)) (ground arith) (ground arith)
          (ground arith);
    freed_once = freed_once;
    alive = λ h. ground (arith, alive, alloc_bounded count few, alloc-le count i lt);
    last_dead =
        λ j l h. ground (arith, last_dead j, alive, alloc_bounded count few, alloc-le count i lt);
    last_one = λ j k l l' h h'. ground (
      arith,
      last_one j k,
      last_dead j,
      last_dead k,
      alloc_bounded count few,
      alloc-le count i lt,
    );
    settled = λ h. ground (arith, settled, alloc_bounded count few, alloc-le count i lt);
    whole = ground (arith, whole);
    undropped = λ h. ground (arith, undropped, data_bounded count few, data-le count i lt);
    clearing =
        λ j l h. ground (arith, clearing j, undropped, data_bounded count few, data-le count i lt);
    clearing_one = λ j k l l' h h'. ground (
      arith,
      clearing_one j k,
      clearing j,
      clearing k,
      data_bounded count few,
      data-le count i lt,
    );
    cleared = λ h. ground (arith, cleared, data_bounded count few, data-le count i lt);
    alone = λ j l h.
        ground
          (arith, alone j, two_owed count i j lt, alloc_bounded count few, alloc-le count i lt);
    cloner = λ j l h. ground (arith, cloner j);
    upgrader = λ j m l h. ground (arith, upgrader j m, data_bounded count few, data-le count i lt);
    upgrader_done = λ j l h. ground (arith, upgrader_done j);
    sound = λ j l h. ground (arith, sound j);
  }

  pub try_upgrade-Inv :
      (b : Bool) (m : ℕ) → (s.threads i).pc ≡ upgrading m → Inv n (try_upgrade i b m s)
  unfolding try_upgrade
  try_upgrade-Inv b m at = record {
    count = try_upgrade-Counted s count few i lt b m at;
    freed_once = freed_once;
    alive = λ h. ground (arith, alive, alloc_bounded count few, alloc-le count i lt);
    last_dead =
        λ j l h. ground (arith, last_dead j, alive, alloc_bounded count few, alloc-le count i lt);
    last_one = λ j k l l' h h'. ground (
      arith,
      last_one j k,
      last_dead j,
      last_dead k,
      alloc_bounded count few,
      alloc-le count i lt,
    );
    settled = λ h. ground (arith, settled, alloc_bounded count few, alloc-le count i lt);
    whole = ground (arith, whole);
    undropped =
        λ h. ground (arith, undropped, data_bounded count few, data-le count i lt, upgrader i m lt);
    clearing = λ j l h.
        ground (
          arith,
          clearing j,
          undropped,
          data_bounded count few,
          data-le count i lt,
          upgrader i m lt,
        );
    clearing_one = λ j k l l' h h'. ground (
      arith,
      clearing_one j k,
      clearing j,
      clearing k,
      data_bounded count few,
      data-le count i lt,
      upgrader i m lt,
    );
    cleared =
        λ h. ground (arith, cleared, data_bounded count few, data-le count i lt, upgrader i m lt);
    alone = λ j l h.
        ground
          (arith, alone j, two_owed count i j lt, alloc_bounded count few, alloc-le count i lt);
    cloner = λ j l h. ground (arith, cloner j);
    upgrader = λ j k l h.
        ground (arith, upgrader j k, upgrader i m, data_bounded count few, data-le count i lt);
    upgrader_done = λ j l h. ground (arith, upgrader_done j, upgrader i m);
    sound = λ j l h. ground (arith, sound j);
  }

  pub finish_upgrade-Inv : (s.threads i).pc ≡ upgraded → Inv n (finish_upgrade i s)
  unfolding finish_upgrade
  finish_upgrade-Inv at = record {
    count = finish_upgrade-Counted s count few i lt at;
    freed_once = freed_once;
    alive = λ h.
        ground (arith, alive, alloc_bounded count few, alloc-le count i lt, upgrader_done i lt);
    last_dead = λ j l h. ground (
      arith,
      last_dead j,
      alive,
      alloc_bounded count few,
      alloc-le count i lt,
      upgrader_done i lt,
    );
    last_one = λ j k l l' h h'. ground (
      arith,
      last_one j k,
      last_dead j,
      last_dead k,
      alloc_bounded count few,
      alloc-le count i lt,
      upgrader_done i lt,
    );
    settled = λ h.
        ground (arith, settled, alloc_bounded count few, alloc-le count i lt, upgrader_done i lt);
    whole = ground (arith, whole);
    undropped = λ h.
        ground (arith, undropped, data_bounded count few, data-le count i lt, upgrader_done i lt);
    clearing = λ j l h. ground (
      arith,
      clearing j,
      undropped,
      data_bounded count few,
      data-le count i lt,
      upgrader_done i lt,
    );
    clearing_one = λ j k l l' h h'. ground (
      arith,
      clearing_one j k,
      clearing j,
      clearing k,
      data_bounded count few,
      data-le count i lt,
      upgrader_done i lt,
    );
    cleared = λ h.
        ground (arith, cleared, data_bounded count few, data-le count i lt, upgrader_done i lt);
    alone = λ j l h. ground (
      arith,
      alone j,
      two_owed count i j lt,
      alloc_bounded count few,
      alloc-le count i lt,
      upgrader_done i lt,
    );
    cloner = λ j l h. ground (arith, cloner j);
    upgrader = λ j m l h. ground (arith, upgrader j m);
    upgrader_done = λ j l h. ground (arith, upgrader_done j);
    sound = λ j l h. ground (arith, sound j);
  }
