-- ===== src/Arc/Optimized/Ending.antt =====
-- The drops keep what the threads know.
use rust_atomics_and_locks.Base.{ℕ, ◌<◌, ◌≡◌, inl, inr, arith, ◌==◌, Bool-cases}
use rust_atomics_and_locks.Arc.Optimized.{
  idle, last_arc, last, ArcData, drop_arc, drop_content, free_box,
}
use rust_atomics_and_locks.Arc.Optimized.Tally.{arcs-le, weaks-le, two_arcs}
use rust_atomics_and_locks.Arc.Optimized.Life.{Inv}
use rust_atomics_and_locks.Arc.Optimized.Views.{DataViews}

module _ {T : Type 0} {n k : ℕ} (s : ArcData T) (inv : Inv n k s) (v : DataViews n s) (i : ℕ)
    (lt : i < n) where
  open inv use {
    count, freed_once, alive, last_dead, last_one, settled, dropped_once, undropped, clearing,
    clearing_one, cleared, finishing, borrower, upgrader, downgrader, running,
  }
  open v use {known, last_knows}

  pub drop_arc-DataViews :
      (s.threads i).pc ≡ idle → 0 < (s.threads i).arcs → DataViews n (drop_arc i s)
  unfolding drop_arc
  drop_arc-DataViews at some = record {
    known = λ q h. elim (known q (omega (arith, arcs-le count i lt))) [
      | inl p ↦ inl (omega arith)
      | inr (j, l, has, p) ↦ elim (Bool-cases (i == j)) [
        | inl same ↦ inl (ground arith)
        | inr other ↦ inr (j, l, ground arith, ground arith)
      ]
    ];
    last_knows = λ j q l h. elim (known q (omega (arith, arcs-le count i lt))) [
      | inl p ↦ ground (arith, clearing j l, arcs-le count i lt)
      | inr (m, l', has, p) ↦
          ground (arith, clearing j l, arcs-le count i lt, two_arcs count i lt m l')
    ];
  }

  pub drop_content-DataViews : (s.threads i).pc ≡ last_arc → DataViews n (drop_content i s)
  unfolding drop_content
  drop_content-DataViews at = record {
    known = λ q h. absurd (omega (arith, clearing i lt at));
    last_knows = λ j q l h. ground (arith, clearing_one i j);
  }

  gone : (s.threads i).pc ≡ last → s.data_ref_count.value ≡ 0
  gone at = ground (arith, last_dead i lt)

  pub free_box-DataViews : (s.threads i).pc ≡ last → DataViews n (free_box i s)
  unfolding free_box
  free_box-DataViews at = record {
    known = λ q h. absurd (omega (arith, gone at));
    last_knows = λ j q l h. ground (
      arith,
      last_dead i lt,
      clearing j l,
      borrower j l,
      arcs-le count i lt,
      weaks-le count i lt,
      two_arcs count i lt j l,
      count.lock_arcs j,
      count.lock_arcs i,
      arcs-le count j l,
      weaks-le count j l,
    );
  }
