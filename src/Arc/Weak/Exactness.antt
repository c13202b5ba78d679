-- ===== src/Arc/Weak/Exactness.antt =====
-- Every operation keeps the counts of an `Arc` with weak pointers exact.
use rust_atomics_and_locks.Base.{ℕ, ◌+◌, ◌*◌, ◌<◌, ◌≡◌, Bool, arith, put, sum-put}
use rust_atomics_and_locks.Arc.Word.{max_half}
use rust_atomics_and_locks.Arc.Weak.{
  idle, cloning, upgrading, upgraded, dropping, Thread, ArcData, weak_cloned, add_weak, begun_clone,
  begin_clone, finished_clone, finish_clone, tried, try_upgrade, upgrade_done, finish_upgrade,
  arc_dropped, drop_arc, inner_dropped, drop_inner_weak, weak_dropped, drop_one_weak, hand_over,
  hand_over_weak, given, received, given_weak, received_weak,
}
use rust_atomics_and_locks.Arc.Weak.Counting.{
  kept, alloc_owed, data_owed, Counted, alloc_bounded, data_bounded, kept-le, alloc-le, data-le,
  moved-Counted,
}

-- Of a state.
abbrev pub Exact : {T : Type 0} → ℕ → ArcData T → Type 0
Exact n s = Counted n s.alloc_ref_count.value s.data_ref_count.value s.threads

module _ {T : Type 0} {n : ℕ} (s : ArcData T) (c : Exact n s) (few : 2 * n + 2 < max_half) (i : ℕ)
    (lt : i < n) where
  pub add_weak-Counted : (s.threads i).pc ≡ idle → Exact n (add_weak i s)
  unfolding add_weak
  add_weak-Counted at =
      moved-Counted c i (weak_cloned s (s.threads i)) _ _ lt
        (ground (arith, alloc_bounded c few, kept-le c, alloc-le c i lt))
        (ground (arith, data_bounded c few, data-le c i lt))
        (ground (arith, alloc_bounded c few, kept-le c, alloc-le c i lt))

  pub begin_clone-Counted : (s.threads i).pc ≡ idle → Exact n (begin_clone i s)
  unfolding begin_clone
  begin_clone-Counted at =
      moved-Counted c i (begun_clone s (s.threads i)) _ _ lt
        (ground (arith, alloc_bounded c few, kept-le c, alloc-le c i lt))
        (ground (arith, data_bounded c few, data-le c i lt))
        (ground (arith, alloc_bounded c few, kept-le c, alloc-le c i lt))

  pub finish_clone-Counted : (s.threads i).pc ≡ cloning → Exact n (finish_clone i s)
  unfolding finish_clone
  finish_clone-Counted at =
      moved-Counted c i (finished_clone s (s.threads i)) _ _ lt
        (ground (arith, alloc_bounded c few, kept-le c, alloc-le c i lt))
        (ground (arith, data_bounded c few, data-le c i lt))
        (ground (arith, alloc_bounded c few, kept-le c, alloc-le c i lt))

  pub finish_upgrade-Counted : (s.threads i).pc ≡ upgraded → Exact n (finish_upgrade i s)
  unfolding finish_upgrade
  finish_upgrade-Counted at =
      moved-Counted c i (upgrade_done s (s.threads i)) _ _ lt
        (ground (arith, alloc_bounded c few, kept-le c, alloc-le c i lt))
        (ground (arith, data_bounded c few, data-le c i lt))
        (ground (arith, alloc_bounded c few, kept-le c, alloc-le c i lt))

  pub drop_arc-Counted : (s.threads i).pc ≡ idle → 0 < (s.threads i).arcs → Exact n (drop_arc i s)
  unfolding drop_arc
  drop_arc-Counted at some =
      moved-Counted c i (arc_dropped s (s.threads i)) _ _ lt
        (ground (arith, alloc_bounded c few, kept-le c, alloc-le c i lt))
        (ground (arith, data_bounded c few, data-le c i lt))
        (ground (arith, alloc_bounded c few, kept-le c, alloc-le c i lt))

  pub drop_inner_weak-Counted : (s.threads i).pc ≡ dropping → Exact n (drop_inner_weak i s)
  unfolding drop_inner_weak
  drop_inner_weak-Counted at =
      moved-Counted c i (inner_dropped s (s.threads i)) _ _ lt
        (ground (arith, alloc_bounded c few, kept-le c, alloc-le c i lt))
        (ground (arith, data_bounded c few, data-le c i lt))
        (ground (arith, alloc_bounded c few, kept-le c, alloc-le c i lt))

  pub drop_one_weak-Counted :
      (s.threads i).pc ≡ idle → 0 < (s.threads i).weaks → Exact n (drop_one_weak i s)
  unfolding drop_one_weak
  drop_one_weak-Counted at some =
      moved-Counted c i (weak_dropped s (s.threads i)) _ _ lt
        (ground (arith, alloc_bounded c few, kept-le c, alloc-le c i lt))
        (ground (arith, data_bounded c few, data-le c i lt))
        (ground (arith, alloc_bounded c few, kept-le c, alloc-le c i lt))

  pub try_upgrade-Counted :
      (spurious : Bool) (m : ℕ)
      → (s.threads i).pc ≡ upgrading m
      → Exact n (try_upgrade i spurious m s)
  unfolding try_upgrade
  try_upgrade-Counted spurious m at =
      moved-Counted c i (tried spurious m s (s.threads i)) _ _ lt (ground arith)
        (ground (arith, data_bounded c few, data-le c i lt))
        (ground (arith, alloc_bounded c few, kept-le c, alloc-le c i lt))

  -- A step that leaves both counts as they are.
  pub still-Counted :
      (t : Thread)
      → alloc_owed t ≡ alloc_owed (s.threads i)
      → data_owed t ≡ data_owed (s.threads i)
      → kept t ≡ kept (s.threads i)
      → Counted n s.alloc_ref_count.value s.data_ref_count.value (put s.threads i t)
  still-Counted t e e' b =
      moved-Counted c i t _ _ lt (omega arith) (omega arith) (omega (arith, c.bounded))

  pub hand_over-Counted :
      (j : ℕ) → j < n → (s.threads i).pc ≡ idle → 0 < (s.threads i).arcs → Exact n (hand_over i j s)
  unfolding hand_over
  hand_over-Counted j lj at some = record {
    alloc_exact = omega (
      arith,
      c.alloc_exact,
      sum-put alloc_owed n i s.threads t lt,
      sum-put alloc_owed n j left t' lj,
    );
    data_exact = omega (
      arith,
      c.data_exact,
      sum-put data_owed n i s.threads t lt,
      sum-put data_owed n j left t' lj,
    );
    bounded =
        omega (arith, c.bounded, sum-put kept n i s.threads t lt, sum-put kept n j left t' lj);
  }
    where
      t : Thread
      t = given (s.threads i)

      left : ℕ → Thread
      left = put s.threads i t

      t' : Thread
      t' = received (s.threads i).local.seen (left j)

  pub hand_over_weak-Counted :
      (j : ℕ)
      → j < n
      → (s.threads i).pc ≡ idle
      → 0 < (s.threads i).weaks
      → Exact n (hand_over_weak i j s)
  unfolding hand_over_weak
  hand_over_weak-Counted j lj at some = record {
    alloc_exact = omega (
      arith,
      c.alloc_exact,
      sum-put alloc_owed n i s.threads t lt,
      sum-put alloc_owed n j left t' lj,
    );
    data_exact = omega (
      arith,
      c.data_exact,
      sum-put data_owed n i s.threads t lt,
      sum-put data_owed n j left t' lj,
    );
    bounded =
        omega (arith, c.bounded, sum-put kept n i s.threads t lt, sum-put kept n j left t' lj);
  }
    where
      t : Thread
      t = given_weak (s.threads i)

      left : ℕ → Thread
      left = put s.threads i t

      t' : Thread
      t' = received_weak (s.threads i).local.seen (left j)
