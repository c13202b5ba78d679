-- ===== src/Arc/Optimized/Knowing.antt =====
-- The operations on the counts, but for the drop of an `Arc`, keep what the threads know.
use rust_atomics_and_locks.Base.{ℕ, ◌<◌, ◌≡◌, inl, inr, Bool, arith}
use rust_atomics_and_locks.Arc.Optimized.{
  idle, dropping, upgrading, downgrading, ArcData, clone_arc, clone_one_weak, begin_upgrade,
  try_upgrade, load_alloc, try_downgrade, drop_implicit_weak, drop_one_weak, try_lock,
}
use rust_atomics_and_locks.Arc.Optimized.Tally.{arcs-le}
use rust_atomics_and_locks.Arc.Optimized.Life.{Inv}
use rust_atomics_and_locks.Arc.Optimized.Views.{DataViews}

module _ {T : Type 0} {n k : ℕ} (s : ArcData T) (inv : Inv n k s) (v : DataViews n s) (i : ℕ)
    (lt : i < n) where
  open inv use {
    count, freed_once, alive, last_dead, last_one, settled, dropped_once, undropped, clearing,
    clearing_one, cleared, finishing, borrower, upgrader, downgrader, running,
  }
  open v use {known, last_knows}

  pub clone_arc-DataViews :
      (s.threads i).pc ≡ idle → 0 < (s.threads i).arcs → DataViews n (clone_arc i s)
  unfolding clone_arc
  clone_arc-DataViews at some = record {
    known = λ q h. elim (known q (omega (arith, arcs-le count i lt))) [
      | inl p ↦ inl (ground arith)
      | inr (j, l, has, p) ↦ inr (j, l, ground arith, ground arith)
    ];
    last_knows = λ j q l h. ground (arith, last_knows j q);
  }

  pub clone_one_weak-DataViews :
      (s.threads i).pc ≡ idle → 0 < (s.threads i).weaks → DataViews n (clone_one_weak i s)
  unfolding clone_one_weak
  clone_one_weak-DataViews at some = record {
    known = λ q h. elim (known q (h)) [
      | inl p ↦ inl (ground arith)
      | inr (j, l, has, p) ↦ inr (j, l, ground arith, ground arith)
    ];
    last_knows = λ j q l h. ground (arith, last_knows j q);
  }

  pub begin_upgrade-DataViews :
      (s.threads i).pc ≡ idle → 0 < (s.threads i).weaks → DataViews n (begin_upgrade i s)
  unfolding begin_upgrade
  begin_upgrade-DataViews at some = record {
    known = λ q h. elim (known q (h)) [
      | inl p ↦ inl (ground arith)
      | inr (j, l, has, p) ↦ inr (j, l, ground arith, ground arith)
    ];
    last_knows = λ j q l h. ground (arith, last_knows j q);
  }

  pub try_upgrade-DataViews :
      (b : Bool) (m : ℕ) → (s.threads i).pc ≡ upgrading m → DataViews n (try_upgrade i b m s)
  unfolding try_upgrade
  try_upgrade-DataViews b m at = record {
    known = λ q h. elim (known q (ground (arith, upgrader i m))) [
      | inl p ↦ inl (ground arith)
      | inr (j, l, has, p) ↦ inr (j, l, ground arith, ground arith)
    ];
    last_knows = λ j q l h. ground (arith, last_knows j q, upgrader i m lt at);
  }

  pub load_alloc-DataViews :
      (s.threads i).pc ≡ idle → 0 < (s.threads i).arcs → DataViews n (load_alloc i s)
  unfolding load_alloc
  load_alloc-DataViews at some = record {
    known = λ q h. elim (known q (h)) [
      | inl p ↦ inl (ground arith)
      | inr (j, l, has, p) ↦ inr (j, l, ground arith, ground arith)
    ];
    last_knows = λ j q l h. ground (arith, last_knows j q);
  }

  pub reload_alloc-DataViews :
      (m : ℕ) → (s.threads i).pc ≡ downgrading m → DataViews n (load_alloc i s)
  unfolding load_alloc
  reload_alloc-DataViews m at = record {
    known = λ q h. elim (known q (h)) [
      | inl p ↦ inl (ground arith)
      | inr (j, l, has, p) ↦ inr (j, l, ground arith, ground arith)
    ];
    last_knows = λ j q l h. ground (arith, last_knows j q, downgrader i m lt at);
  }

  pub try_downgrade-DataViews :
      (b : Bool) (m : ℕ) → (s.threads i).pc ≡ downgrading m → DataViews n (try_downgrade i b m s)
  unfolding try_downgrade
  try_downgrade-DataViews b m at = record {
    known = λ q h. elim (known q (h)) [
      | inl p ↦ inl (ground arith)
      | inr (j, l, has, p) ↦ inr (j, l, ground arith, ground arith)
    ];
    last_knows = λ j q l h. ground (arith, last_knows j q, downgrader i m lt at);
  }

  pub drop_one_weak-DataViews :
      (s.threads i).pc ≡ idle → 0 < (s.threads i).weaks → DataViews n (drop_one_weak i s)
  unfolding drop_one_weak
  drop_one_weak-DataViews at some = record {
    known = λ q h. elim (known q (h)) [
      | inl p ↦ inl (ground arith)
      | inr (j, l, has, p) ↦ inr (j, l, ground arith, ground arith)
    ];
    last_knows = λ j q l h. ground (arith, last_knows j q);
  }

  pub drop_implicit_weak-DataViews :
      (s.threads i).pc ≡ dropping → DataViews n (drop_implicit_weak i s)
  unfolding drop_implicit_weak
  drop_implicit_weak-DataViews at = record {
    known = λ q h. elim (known q (h)) [
      | inl p ↦ inl (ground arith)
      | inr (j, l, has, p) ↦ inr (j, l, ground arith, ground arith)
    ];
    last_knows = λ j q l h. ground (arith, last_knows j q);
  }

  pub try_lock-DataViews :
      (s.threads i).pc ≡ idle → 0 < (s.threads i).arcs → DataViews n (try_lock i s)
  unfolding try_lock
  try_lock-DataViews at some = record {
    known = λ q h. elim (known q (h)) [
      | inl p ↦ inl (ground arith)
      | inr (j, l, has, p) ↦ inr (j, l, ground arith, ground arith)
    ];
    last_knows = λ j q l h. ground (arith, last_knows j q);
  }
