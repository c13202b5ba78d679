-- ===== src/Arc/Optimized/BoxEnding.antt =====
-- The drops, and moves of handles, keep what the threads know about the box.
use rust_atomics_and_locks.Base.{ℕ, ◌+◌, ◌<◌, ◌≡◌, ◌≢◌, inl, inr, arith, ◌==◌, Bool-cases}
use rust_atomics_and_locks.Arc.Word.{max_half}
use rust_atomics_and_locks.Arc.Optimized.{
  idle, last_arc, dropping, last, ArcData, drop_arc, drop_content, drop_implicit_weak,
  drop_one_weak, free_box, hand_over, hand_over_weak,
}
use rust_atomics_and_locks.Arc.Optimized.Tally.{
  arcs-le, weaks-le, locks-le, two_weaks, locks-le-strong,
}
use rust_atomics_and_locks.Arc.Optimized.Life.{Inv, weight}
use rust_atomics_and_locks.Arc.Optimized.Views.{DataViews, BoxViews}
use rust_atomics_and_locks.Arc.Optimized.Moving.{hand_over_weak-weaks}

module _ {T : Type 0} {n k : ℕ} (s : ArcData T) (inv : Inv n k s) (b : BoxViews n s) (i : ℕ)
    (lt : i < n) where
  open inv use {
    count, freed_once, alive, last_dead, last_one, settled, dropped_once, undropped, clearing,
    clearing_one, cleared, finishing, borrower, upgrader, downgrader, running,
  }
  open b use {handed_on, freer_knows}

  pub drop_arc-BoxViews :
      (s.threads i).pc ≡ idle → 0 < (s.threads i).arcs → BoxViews n (drop_arc i s)
  unfolding drop_arc
  drop_arc-BoxViews at some = record {
    handed_on = λ q d f w.
        absurd
          (ground (arith, undropped, arcs-le count i lt, weaks-le count i lt, count.lock_arcs i));
    freer_knows = λ j q l h. ground (
      arith,
      freer_knows j q,
      last_dead j l,
      arcs-le count i lt,
      weaks-le count i lt,
      count.lock_arcs i,
    );
  }

  -- A weak pointer that borrower keeps the box finds the data dropped.
  data_dropped : 0 < (s.threads i).weaks → weight n s ≡ 1 → s.dropped ≡ 1
  data_dropped some one = elim (cleared (ground (arith, weaks-le count i lt))) [
    | inl done ↦ done
    | inr (m, l, at) ↦ elim (Bool-cases (i == m)) [
      | inl same ↦ absurd (ground (arith, two_weight m l at some one))
      | inr other ↦ absurd (ground (arith, two_weaks count i lt m l))
    ]
  ]
    where
      two_weight :
          (m : ℕ)
          → m < n
          → (s.threads m).pc ≡ last_arc
          → 0 < (s.threads i).weaks
          → weight n s ≡ 1
          → i ≢ m
      two_weight m l at some one e = ground (arith, weaks-le count i lt)

  pub drop_one_weak-BoxViews :
      (s.threads i).pc ≡ idle → 0 < (s.threads i).weaks → BoxViews n (drop_one_weak i s)
  unfolding drop_one_weak
  drop_one_weak-BoxViews at some = record {
    handed_on = λ q d f w. elim (handed_on q d f (ground (arith, weaks-le count i lt))) [
      | inl p ↦ inl (ground arith)
      | inr (m, l, has, p) ↦ inr (m, l, ground arith, ground arith)
    ];
    freer_knows = λ j q l h. elim (Bool-cases (i == j)) [
      | inr other ↦ ground (arith, freer_knows j q)
      | inl same ↦
          elim (handed_on q (data_dropped some (one j h (ground arith)))
            (alive (ground (arith, weaks-le count i lt))) (ground (arith, weaks-le count i lt))) [
              | inl p ↦ ground arith
              | inr (m, l', has, p) ↦
                  ground
                    (arith, one j h (ground arith), two_weaks count i lt m l', weaks-le count i lt)
            ]
    ];
  }
    where
      one : (j : ℕ) → ((drop_one_weak i s).threads j).pc ≡ last → i ≡ j → weight n s ≡ 1
      one j h same = ground (
        arith,
        count.exact,
        count.locked,
        weaks-le count i lt,
        locks-le-strong count i lt,
        locks-le count i lt,
      )

  pub drop_implicit_weak-BoxViews :
      (s.threads i).pc ≡ dropping → BoxViews n (drop_implicit_weak i s)
  unfolding drop_implicit_weak
  drop_implicit_weak-BoxViews at = record {
    handed_on = λ q d f w. elim (handed_on q d f (ground (arith, weaks-le count i lt))) [
      | inl p ↦ inl (ground arith)
      | inr (m, l, has, p) ↦ elim (Bool-cases (i == m)) [
        | inl same ↦ inl (ground arith)
        | inr other ↦ inr (m, l, ground arith, ground arith)
      ]
    ];
    freer_knows = λ j q l h. elim (Bool-cases (i == j)) [
      | inr other ↦ ground (arith, freer_knows j q)
      | inl same ↦
          elim (handed_on q (ground (arith, finishing i lt))
            (alive (ground (arith, weaks-le count i lt))) (ground (arith, weaks-le count i lt))) [
              | inl p ↦ ground arith
              | inr (m, l', has, p) ↦
                  ground
                    (arith, one j h (ground arith), two_weaks count i lt m l', weaks-le count i lt)
            ]
    ];
  }
    where
      one : (j : ℕ) → ((drop_implicit_weak i s).threads j).pc ≡ last → i ≡ j → weight n s ≡ 1
      one j h same = ground (
        arith,
        count.exact,
        count.locked,
        finishing i lt at,
        weaks-le count i lt,
        locks-le-strong count i lt,
        locks-le count i lt,
      )

  pub drop_content-BoxViews :
      DataViews n s → (s.threads i).pc ≡ last_arc → BoxViews n (drop_content i s)
  unfolding drop_content
  drop_content-BoxViews v at = record {
    handed_on = λ q d f w. inr (i, lt, ground arith, ground (arith, v.last_knows i q lt at));
    freer_knows = λ j q l h. ground (arith, last_dead j l, weaks-le count i lt);
  }

  pub free_box-BoxViews : (s.threads i).pc ≡ last → BoxViews n (free_box i s)
  unfolding free_box
  free_box-BoxViews at = record {
    handed_on = λ q d f w. absurd (omega arith);
    freer_knows = λ j q l h. ground (arith, last_one i j lt l);
  }

  pub hand_over-BoxViews :
      (j : ℕ)
      → j < n
      → (s.threads i).pc ≡ idle
      → 0 < (s.threads i).arcs
      → BoxViews n (hand_over i j s)
  unfolding hand_over
  hand_over-BoxViews j lj at some = record {
    handed_on = λ q d f w.
        absurd
          (ground (arith, undropped, arcs-le count i lt, weaks-le count i lt, count.lock_arcs i));
    freer_knows = λ m q l h. ground (
      arith,
      freer_knows m q,
      last_dead m l,
      arcs-le count i lt,
      weaks-le count i lt,
      count.lock_arcs i,
    );
  }

  pub hand_over_weak-BoxViews :
      k + 2 < max_half
      → (j : ℕ) → j < n
      → (s.threads i).pc ≡ idle
      → 0 < (s.threads i).weaks
      → BoxViews n (hand_over_weak i j s)
  unfolding hand_over_weak
  hand_over_weak-BoxViews few j lj at some = record {
    handed_on = λ q d f w.
        elim (handed_on q d f (omega (arith, hand_over_weak-weaks few inv i lt j lj some))) [
          | inl p ↦ inl (ground arith)
          | inr (m, l, has, p) ↦ inr (m, l, ground arith, ground arith)
        ];
    freer_knows = λ m q l h. ground (
      arith,
      freer_knows m q,
      last_dead m l,
      arcs-le count i lt,
      weaks-le count i lt,
      count.lock_arcs i,
    );
  }
