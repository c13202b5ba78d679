-- ===== src/Arc/Optimized/Safety.antt =====
-- What the `Arc` and the `Weak` of examples/06-03_optimization.rs promise. A run is shorter than
-- `usize::MAX / 2` steps: no count overflows in it.
use rust_atomics_and_locks.Base.{
  ℕ, ◌+◌, ◌-◌, ◌<◌, ◌≡◌, ◌⊎◌, inl, inr, refl, ap, true, false, List, [], ◌∷◌, arith, sum,
  sum-eq-zero, sum-pos, sum-le, run, length, ◌==◌, Bool-cases, put_self, ltb,
}
use rust_atomics_and_locks.Arc.Word.{modulus, max_half}
use rust_atomics_and_locks.Arc.Optimized.{
  idle, locking, tested, Action, test, unlock, Pc, ArcData, step, perform, unique_tested,
  test_unique, unlock_alloc, after,
}
use rust_atomics_and_locks.Arc.Optimized.Tally.{
  arcs_of, weaks_of, locks, locks_of, arcs-le, weaks-le,
}
use rust_atomics_and_locks.Arc.Optimized.Life.{Inv, weight}
use rust_atomics_and_locks.Arc.Optimized.Steps.{Good, after-Good}

next_step :
    {T : Type 0} (n j : ℕ) (s : ArcData T) (p : Pc) (e : Action T)
    → j < n
    → s.aborted ≡ false
    → (s.threads j).pc ≡ p
    → step n (j, e) s ≡ perform n j p e s
unfolding step
next_step n j s p e l going at =
    let running : ltb j n ≡ true = ground arith in rw (going, running, at)

-- The rest of `get_mut`, from either of its two steps.
two_steps :
    {T : Type 0} (n j seen : ℕ) (s : ArcData T) (p : Pc)
    → j < n
    → s.aborted ≡ false
    → (s.threads j).pc ≡ p
    → locks p ≡ 1
    → (run (step n) ((j, test seen) ∷ (j, unlock) ∷ []) s).alloc_ref_count.value ≡ 1
unfolding run perform test_unique unlock_alloc
two_steps n j seen s locking l going at h = rw (next_step n j s locking (test seen) l going at) (
    rw
      (next_step n j (test_unique j seen s) (unique_tested seen (s.threads j)).pc unlock l going
        (ap (λ t. t.pc) (put_self s.threads j (unique_tested seen (s.threads j)))))
      refl)
two_steps n j seen s (tested u) l going at h =
    rw
      (
        next_step n j s (tested u) (test seen) l going at,
        next_step n j s (tested u) unlock l going at,
      )
      refl
two_steps n j seen s _ l going at h = absurd (omega (arith, h))

module _ {T : Type 0} (n : ℕ) (some : 0 < n) (es : List (ℕ × Action T))
    (few : length es + 3 < max_half) (v : T) where
  good : Good n (1 + length es) (after n es v)
  good = after-Good n es v some few

  inv : Inv n (1 + length es) (after n es v)
  inv = good.life

  -- In a run of fewer than `usize::MAX / 2 - 3` steps, `data_ref_count` is the number of
  -- `Arc`s. Unless a thread is in `get_mut` with the count locked, `alloc_ref_count` is the
  -- number of `Weak`s, with one more while there is an `Arc` and one for each thread that is
  -- dropping the last one. While it is locked it is `usize::MAX`, and there is no `Weak` at
  -- all.
  pub locked_counts_exact :
      ((after n es v).data_ref_count.value ≡ sum arcs_of n (after n es v).threads)
      × (((sum locks_of n (after n es v).threads ≡ 0)
            × ((after n es v).alloc_ref_count.value ≡ weight n (after n es v)))
          ⊎ ((sum locks_of n (after n es v).threads ≡ 1)
              × ((after n es v).alloc_ref_count.value ≡ modulus - 1)
              × (sum weaks_of n (after n es v).threads ≡ 0)))
  locked_counts_exact = (
    inv.count.strong_exact,
    elim (Bool-cases (locked == 0)) [
      | inl e ↦ inl (ground arith, inv.count.exact (ground arith))
      | inr e ↦
          inr (
            one e,
            (inv.count.locked (one e)).0,
            ground (arith, inv.count.locked (one e), no_arc e),
          )
    ],
  )
    where
      locked : ℕ
      locked = sum locks_of n (after n es v).threads

      one : (locked == 0) ≡ false → locked ≡ 1
      one e = ground (arith, inv.count.one_lock)

      no_arc : (locked == 0) ≡ false → 0 < (after n es v).data_ref_count.value
      no_arc e = omega (
        arith,
        one e,
        sum-le locks_of arcs_of n (after n es v).threads inv.count.lock_arcs,
        inv.count.strong_exact,
      )

  -- In a run of fewer than `usize::MAX / 2 - 3` steps, a thread that holds an `Arc` finds
  -- neither the data nor the box dropped.
  pub arc_finds_data :
      (i : ℕ)
      → i < n
      → 0 < ((after n es v).threads i).arcs
      → ((after n es v).dropped ≡ 0) × ((after n es v).freed ≡ 0)
  arc_finds_data i lt has = (
    ground (arith, inv.undropped, arcs-le inv.count i lt),
    ground (arith, inv.alive, arcs-le inv.count i lt),
  )

  -- In a run of fewer than `usize::MAX / 2 - 3` steps, a thread that holds a `Weak` finds the
  -- box not dropped.
  pub weak_finds_box :
      (i : ℕ) → i < n → 0 < ((after n es v).threads i).weaks → (after n es v).freed ≡ 0
  weak_finds_box i lt has = ground (arith, inv.alive, weaks-le inv.count i lt)

  -- In a run of fewer than `usize::MAX / 2 - 3` steps, nothing leaks and nothing is dropped
  -- twice: when all handles are gone and no call is under way, the data has been dropped once
  -- and the box has been dropped once.
  pub both_dropped_exactly_once :
      ((i : ℕ)
        → i < n
        → (((after n es v).threads i).arcs ≡ 0)
          × (((after n es v).threads i).weaks ≡ 0)
          × (((after n es v).threads i).pc ≡ idle))
      → ((after n es v).dropped ≡ 1) × ((after n es v).freed ≡ 1)
  both_dropped_exactly_once gone = (
    elim (inv.cleared no_arcs) [ inl done ↦ done | inr (i, lt, at) ↦ absurd (cc ((gone i lt).2)) ],
    elim (inv.settled (ground (arith, no_arcs, no_weaks))) [
      | inl done ↦ done
      | inr (i, lt, at) ↦ absurd (cc ((gone i lt).2))
    ],
  )
    where
      no_arcs : (after n es v).data_ref_count.value ≡ 0
      no_arcs = omega (
        arith,
        inv.count.strong_exact,
        sum-eq-zero arcs_of n (after n es v).threads (λ i lt. ground (arith, gone i lt)),
      )

      no_weaks : sum weaks_of n (after n es v).threads ≡ 0
      no_weaks = sum-eq-zero weaks_of n (after n es v).threads (λ i lt. ground (arith, gone i lt))

  -- In a run of fewer than `usize::MAX / 2 - 3` steps, a `downgrade` that finds `usize::MAX`
  -- does not wait for nothing: some thread is in `get_mut`, and two steps of that thread unlock
  -- the count, whatever its load of `data_ref_count` returns.
  pub spin_ends :
      (after n es v).aborted ≡ false
      → (after n es v).alloc_ref_count.value ≡ modulus - 1
      → (seen : ℕ)
      → (j : ℕ) × (j < n)
        × (locks ((after n es v).threads j).pc ≡ 1)
        × ((run (step n) ((j, test seen) ∷ (j, unlock) ∷ []) (after n es v)).alloc_ref_count.value
            ≡ 1)
  spin_ends going taken seen =
      let (j, l, p) = sum-pos locks_of n (after n es v).threads held in
      (
        j,
        l,
        ground (arith, p),
        two_steps n j seen (after n es v) ((after n es v).threads j).pc l going refl
            (ground (arith, p)),
      )
    where
      held : 0 < sum locks_of n (after n es v).threads
      held = elim (Bool-cases (sum locks_of n (after n es v).threads == 0)) [
        | inl e ↦ absurd (ground (arith, inv.count.exact, inv.count.small))
        | inr e ↦ ground arith
      ]
