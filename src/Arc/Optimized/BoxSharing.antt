-- ===== src/Arc/Optimized/BoxSharing.antt =====
-- The operations that drop nothing keep what the threads know about the box.
use rust_atomics_and_locks.Base.{ℕ, ◌<◌, ◌≡◌, inl, inr, Bool, arith}
use rust_atomics_and_locks.Arc.Optimized.{
  idle, locking, exclusive, upgrading, downgrading, tested, ArcData, clone_arc, clone_one_weak,
  begin_upgrade, try_upgrade, load_alloc, try_downgrade, try_lock, test_unique, unlock_alloc,
  update, read,
}
use rust_atomics_and_locks.Arc.Optimized.Tally.{arcs-le, weaks-le}
use rust_atomics_and_locks.Arc.Optimized.Life.{Inv}
use rust_atomics_and_locks.Arc.Optimized.Views.{BoxViews}

module _ {T : Type 0} {n k : ℕ} (s : ArcData T) (inv : Inv n k s) (b : BoxViews n s) (i : ℕ)
    (lt : i < n) where
  open inv use {
    count, freed_once, alive, last_dead, last_one, settled, dropped_once, undropped, clearing,
    clearing_one, cleared, finishing, borrower, upgrader, downgrader, running,
  }
  open b use {handed_on, freer_knows}

  pub clone_arc-BoxViews :
      (s.threads i).pc ≡ idle → 0 < (s.threads i).arcs → BoxViews n (clone_arc i s)
  unfolding clone_arc
  clone_arc-BoxViews at some = record {
    handed_on = λ q d f w.
        absurd
          (ground (arith, undropped, arcs-le count i lt, weaks-le count i lt, count.lock_arcs i));
    freer_knows = λ j q l h. ground (
      arith,
      freer_knows j q,
      last_dead j l,
      arcs-le count i lt,
      weaks-le count i lt,
      count.lock_arcs i,
    );
  }

  pub clone_one_weak-BoxViews :
      (s.threads i).pc ≡ idle → 0 < (s.threads i).weaks → BoxViews n (clone_one_weak i s)
  unfolding clone_one_weak
  clone_one_weak-BoxViews at some = record {
    handed_on = λ q d f w. elim (handed_on q d f (ground (arith, weaks-le count i lt))) [
      | inl p ↦ inl (ground arith)
      | inr (m, l, has, p) ↦ inr (m, l, ground arith, ground arith)
    ];
    freer_knows = λ j q l h. ground (
      arith,
      freer_knows j q,
      last_dead j l,
      arcs-le count i lt,
      weaks-le count i lt,
      count.lock_arcs i,
    );
  }

  pub begin_upgrade-BoxViews :
      (s.threads i).pc ≡ idle → 0 < (s.threads i).weaks → BoxViews n (begin_upgrade i s)
  unfolding begin_upgrade
  begin_upgrade-BoxViews at some = record {
    handed_on = λ q d f w. elim (handed_on q d f (ground (arith, weaks-le count i lt))) [
      | inl p ↦ inl (ground arith)
      | inr (m, l, has, p) ↦ inr (m, l, ground arith, ground arith)
    ];
    freer_knows = λ j q l h. ground (
      arith,
      freer_knows j q,
      last_dead j l,
      arcs-le count i lt,
      weaks-le count i lt,
      count.lock_arcs i,
    );
  }

  pub try_upgrade-BoxViews :
      (b' : Bool) (m : ℕ) → (s.threads i).pc ≡ upgrading m → BoxViews n (try_upgrade i b' m s)
  unfolding try_upgrade
  try_upgrade-BoxViews b' m at = record {
    handed_on = λ q d f w.
        elim (handed_on q d f (ground (arith, weaks-le count i lt, upgrader i m))) [
          | inl p ↦ inl (ground arith)
          | inr (j, l, has, p) ↦ inr (j, l, ground arith, ground arith)
        ];
    freer_knows = λ j q l h. ground (
      arith,
      freer_knows j q,
      last_dead j l,
      arcs-le count i lt,
      weaks-le count i lt,
      count.lock_arcs i,
      upgrader i m lt at,
    );
  }

  pub load_alloc-BoxViews :
      (s.threads i).pc ≡ idle → 0 < (s.threads i).arcs → BoxViews n (load_alloc i s)
  unfolding load_alloc
  load_alloc-BoxViews at some = record {
    handed_on = λ q d f w.
        absurd
          (ground (arith, undropped, arcs-le count i lt, weaks-le count i lt, count.lock_arcs i));
    freer_knows = λ j q l h. ground (
      arith,
      freer_knows j q,
      last_dead j l,
      arcs-le count i lt,
      weaks-le count i lt,
      count.lock_arcs i,
    );
  }

  pub reload_alloc-BoxViews :
      (m : ℕ) → (s.threads i).pc ≡ downgrading m → BoxViews n (load_alloc i s)
  unfolding load_alloc
  reload_alloc-BoxViews m at = record {
    handed_on = λ q d f w. absurd (
        ground (
          arith,
          undropped,
          arcs-le count i lt,
          weaks-le count i lt,
          count.lock_arcs i,
          downgrader i m lt at,
        ));
    freer_knows = λ j q l h. ground (
      arith,
      freer_knows j q,
      last_dead j l,
      arcs-le count i lt,
      weaks-le count i lt,
      count.lock_arcs i,
      downgrader i m lt at,
    );
  }

  pub try_downgrade-BoxViews :
      (b' : Bool) (m : ℕ) → (s.threads i).pc ≡ downgrading m → BoxViews n (try_downgrade i b' m s)
  unfolding try_downgrade
  try_downgrade-BoxViews b' m at = record {
    handed_on = λ q d f w. absurd (
        ground (
          arith,
          undropped,
          arcs-le count i lt,
          weaks-le count i lt,
          count.lock_arcs i,
          downgrader i m lt at,
        ));
    freer_knows = λ j q l h. ground (
      arith,
      freer_knows j q,
      last_dead j l,
      arcs-le count i lt,
      weaks-le count i lt,
      count.lock_arcs i,
      downgrader i m lt at,
    );
  }

  pub try_lock-BoxViews :
      (s.threads i).pc ≡ idle → 0 < (s.threads i).arcs → BoxViews n (try_lock i s)
  unfolding try_lock
  try_lock-BoxViews at some = record {
    handed_on = λ q d f w.
        absurd
          (ground (arith, undropped, arcs-le count i lt, weaks-le count i lt, count.lock_arcs i));
    freer_knows = λ j q l h. ground (
      arith,
      freer_knows j q,
      last_dead j l,
      arcs-le count i lt,
      weaks-le count i lt,
      count.lock_arcs i,
    );
  }

  pub test_unique-BoxViews :
      (seen : ℕ) → (s.threads i).pc ≡ locking → BoxViews n (test_unique i seen s)
  unfolding test_unique
  test_unique-BoxViews seen at = record {
    handed_on = λ q d f w.
        absurd
          (ground (arith, undropped, arcs-le count i lt, weaks-le count i lt, count.lock_arcs i));
    freer_knows = λ j q l h. ground (
      arith,
      freer_knows j q,
      last_dead j l,
      arcs-le count i lt,
      weaks-le count i lt,
      count.lock_arcs i,
    );
  }

  pub unlock_alloc-BoxViews :
      (u : Bool) → (s.threads i).pc ≡ tested u → BoxViews n (unlock_alloc i u s)
  unfolding unlock_alloc
  unlock_alloc-BoxViews u at = record {
    handed_on = λ q d f w.
        absurd
          (ground (arith, undropped, arcs-le count i lt, weaks-le count i lt, count.lock_arcs i));
    freer_knows = λ j q l h. ground (
      arith,
      freer_knows j q,
      last_dead j l,
      arcs-le count i lt,
      weaks-le count i lt,
      count.lock_arcs i,
    );
  }

  pub update-BoxViews : (f : T → T) → (s.threads i).pc ≡ exclusive → BoxViews n (update i f s)
  unfolding update
  update-BoxViews f at = record {
    handed_on = λ q d g w. absurd (
        ground (
          arith,
          undropped,
          arcs-le count i lt,
          weaks-le count i lt,
          count.lock_arcs i,
          borrower i lt at,
        ));
    freer_knows = λ j q l h. ground (
      arith,
      freer_knows j q,
      last_dead j l,
      arcs-le count i lt,
      weaks-le count i lt,
      count.lock_arcs i,
      borrower i lt at,
    );
  }

  pub read-BoxViews : (s.threads i).pc ≡ idle → 0 < (s.threads i).arcs → BoxViews n (read i s)
  unfolding read
  read-BoxViews at some = record {
    handed_on = λ q d f w.
        absurd
          (ground (arith, undropped, arcs-le count i lt, weaks-le count i lt, count.lock_arcs i));
    freer_knows = λ j q l h. ground (
      arith,
      freer_knows j q,
      last_dead j l,
      arcs-le count i lt,
      weaks-le count i lt,
      count.lock_arcs i,
    );
  }
