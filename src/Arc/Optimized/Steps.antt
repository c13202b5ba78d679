-- ===== src/Arc/Optimized/Steps.antt =====
-- Every step of the threads keeps the invariants of an `Arc` with an implicit weak pointer.
use rust_atomics_and_locks.Base.{
  ℕ, suc, ◌+◌, ◌-◌, ◌<◌, ◌≡◌, refl, Bool, true, false, List, [], ◌∷◌, arith, ltb, run, length, ◌&&◌,
  ◌==◌, if◌then◌else◌, Bool-cases, inl, inr,
}
use rust_atomics_and_locks.Arc.Word.{modulus, max_half}
use rust_atomics_and_locks.Arc.Optimized.{
  Pc, idle, aborting, last_arc, dropping, last, locking, exclusive, upgrading, downgrading, tested,
  ArcData, Action, clone, clone_weak, upgrade, downgrade, spin, drop, drop_data, drop_implicit,
  drop_weak, free, get_mut, test, unlock, deref, abort, exchange, give, give_weak, write, start,
  perform, step, after,
}
use rust_atomics_and_locks.Arc.Optimized.Life.{Inv, start-Inv}
use rust_atomics_and_locks.Arc.Optimized.Views.{
  DataViews, BoxViews, start-DataViews, start-BoxViews,
}
use rust_atomics_and_locks.Arc.Optimized.Idling.{later-Inv}
use rust_atomics_and_locks.Arc.Optimized.Gaining.{
  clone_arc-Inv, clone_one_weak-Inv, begin_upgrade-Inv, try_upgrade-Inv,
}
use rust_atomics_and_locks.Arc.Optimized.Downgrading.{
  load_alloc-Inv, reload_alloc-Inv, try_downgrade-Inv,
}
use rust_atomics_and_locks.Arc.Optimized.Losing.{
  drop_arc-Inv, drop_content-Inv, drop_implicit_weak-Inv, drop_one_weak-Inv, free_box-Inv,
}
use rust_atomics_and_locks.Arc.Optimized.Using.{
  try_lock-Inv, test_unique-Inv, unlock_alloc-Inv, update-Inv, read-Inv,
}
use rust_atomics_and_locks.Arc.Optimized.Moving.{hand_over-Inv, hand_over_weak-Inv}
use rust_atomics_and_locks.Arc.Optimized.Knowing.{
  clone_arc-DataViews, clone_one_weak-DataViews, begin_upgrade-DataViews, try_upgrade-DataViews,
  load_alloc-DataViews, reload_alloc-DataViews, try_downgrade-DataViews, drop_one_weak-DataViews,
  drop_implicit_weak-DataViews, try_lock-DataViews,
}
use rust_atomics_and_locks.Arc.Optimized.Ending.{
  drop_arc-DataViews, drop_content-DataViews, free_box-DataViews,
}
use rust_atomics_and_locks.Arc.Optimized.Sharing.{
  test_unique-DataViews, unlock_alloc-DataViews, read-DataViews, update-DataViews,
  hand_over-DataViews, hand_over_weak-DataViews,
}
use rust_atomics_and_locks.Arc.Optimized.BoxSharing.{
  clone_arc-BoxViews, clone_one_weak-BoxViews, begin_upgrade-BoxViews, try_upgrade-BoxViews,
  load_alloc-BoxViews, reload_alloc-BoxViews, try_downgrade-BoxViews, try_lock-BoxViews,
  test_unique-BoxViews, unlock_alloc-BoxViews, update-BoxViews, read-BoxViews,
}
use rust_atomics_and_locks.Arc.Optimized.BoxEnding.{
  drop_arc-BoxViews, drop_one_weak-BoxViews, drop_implicit_weak-BoxViews, drop_content-BoxViews,
  free_box-BoxViews, hand_over-BoxViews, hand_over_weak-BoxViews,
}

pub record Good {T : Type 0} (n k : ℕ) (s : ArcData T) : Type 0 where
  pub life : Inv n k s
  pub data_views : DataViews n s
  pub box_views : BoxViews n s

abbrev good :
    {T : Type 0} {n k : ℕ} {s : ArcData T} → Inv n k s → DataViews n s → BoxViews n s → Good n k s
good l d b = record { life = l; data_views = d; box_views = b }

later-Good : {T : Type 0} {n k : ℕ} {s : ArcData T} → Good n k s → Good n (suc k) s
later-Good g = good (later-Inv g.life) g.data_views g.box_views

-- What an operation does under its test.
guarded :
    {T : Type 0} {n k : ℕ} {s t : ArcData T} (b : Bool)
    → Good n k s
    → (b ≡ true → Good n (suc k) t)
    → Good n (suc k) (if b then t else s)
guarded true g h = h refl
guarded false g h = later-Good g

unless :
    {T : Type 0} {n k : ℕ} {s t : ArcData T} (b : Bool)
    → Good n k s
    → Good n (suc k) t
    → Good n (suc k) (if b then s else t)
unless true g h = later-Good g
unless false g h = h

-- An assertion that holds.
passed :
    {T : Type 0} {n k : ℕ} {s : ArcData T} (b : Bool) (t : ArcData T)
    → b ≡ true
    → Good n k s
    → Good n k (if b then s else t)
passed true t e g = g
passed false t e g = absurd (cc)

module _ {T : Type 0} {n k : ℕ} (few : k + 2 < max_half) where
  perform-Good :
      (s : ArcData T)
      → Good n k s
      → (i : ℕ) → i < n
      → (p : Pc) (e : Action T) → (s.threads i).pc ≡ p
      → Good n (suc k) (perform n i p e s)
  unfolding perform
  perform-Good s g i lt idle clone at = guarded (ltb 0 (s.threads i).arcs) g (λ h.
      good (clone_arc-Inv few g.life i lt at (ground arith))
        (clone_arc-DataViews s g.life g.data_views i lt at (ground arith))
        (clone_arc-BoxViews s g.life g.box_views i lt at (ground arith)))
  perform-Good s g i lt idle downgrade at = guarded (ltb 0 (s.threads i).arcs) g (λ h.
      good (load_alloc-Inv few g.life i lt at (ground arith))
        (load_alloc-DataViews s g.life g.data_views i lt at (ground arith))
        (load_alloc-BoxViews s g.life g.box_views i lt at (ground arith)))
  perform-Good s g i lt idle drop at = guarded (ltb 0 (s.threads i).arcs) g (λ h.
      good (drop_arc-Inv few g.life i lt at (ground arith))
        (drop_arc-DataViews s g.life g.data_views i lt at (ground arith))
        (drop_arc-BoxViews s g.life g.box_views i lt at (ground arith)))
  perform-Good s g i lt idle get_mut at = guarded (ltb 0 (s.threads i).arcs) g (λ h.
      good (try_lock-Inv few g.life i lt at (ground arith))
        (try_lock-DataViews s g.life g.data_views i lt at (ground arith))
        (try_lock-BoxViews s g.life g.box_views i lt at (ground arith)))
  perform-Good s g i lt idle deref at = guarded (ltb 0 (s.threads i).arcs) g (λ h.
      good (read-Inv few g.life i lt at)
        (read-DataViews s g.life g.data_views i lt at (ground arith))
        (read-BoxViews s g.life g.box_views i lt at (ground arith)))
  perform-Good s g i lt idle clone_weak at = guarded (ltb 0 (s.threads i).weaks) g (λ h.
      good (clone_one_weak-Inv few g.life i lt at (ground arith))
        (clone_one_weak-DataViews s g.life g.data_views i lt at (ground arith))
        (clone_one_weak-BoxViews s g.life g.box_views i lt at (ground arith)))
  perform-Good s g i lt idle upgrade at = guarded (ltb 0 (s.threads i).weaks) g (λ h.
      good (begin_upgrade-Inv few g.life i lt at (ground arith))
        (begin_upgrade-DataViews s g.life g.data_views i lt at (ground arith))
        (begin_upgrade-BoxViews s g.life g.box_views i lt at (ground arith)))
  perform-Good s g i lt idle drop_weak at = guarded (ltb 0 (s.threads i).weaks) g (λ h.
      good (drop_one_weak-Inv few g.life i lt at (ground arith))
        (drop_one_weak-DataViews s g.life g.data_views i lt at (ground arith))
        (drop_one_weak-BoxViews s g.life g.box_views i lt at (ground arith)))
  perform-Good s g i lt idle (give j) at = guarded (ltb 0 (s.threads i).arcs && ltb j n) g (λ h.
      good (hand_over-Inv few g.life i lt j (ground arith) at (ground arith))
        (hand_over-DataViews s g.life g.data_views i lt j (ground arith) at (ground arith))
        (hand_over-BoxViews s g.life g.box_views i lt j (ground arith) at (ground arith)))
  perform-Good s g i lt idle (give_weak j) at =
      guarded (ltb 0 (s.threads i).weaks && ltb j n) g (λ h.
        good (hand_over_weak-Inv few g.life i lt j (ground arith) at (ground arith))
          (hand_over_weak-DataViews s g.life g.data_views i lt j (ground arith) at (ground arith))
          (hand_over_weak-BoxViews s g.life g.box_views i lt few j (ground arith) at
            (ground arith)))
  perform-Good s g i lt (upgrading m) (exchange b) at =
      passed (ltb m (modulus - 1)) _ (ground (arith, g.life.upgrader i m lt)) (
        good (try_upgrade-Inv few g.life i lt b m at)
          (try_upgrade-DataViews s g.life g.data_views i lt b m at)
          (try_upgrade-BoxViews s g.life g.box_views i lt b m at))
  perform-Good s g i lt (downgrading m) spin at = guarded (m == modulus - 1) g (λ h.
      good (reload_alloc-Inv few g.life i lt m at)
        (reload_alloc-DataViews s g.life g.data_views i lt m at)
        (reload_alloc-BoxViews s g.life g.box_views i lt m at))
  perform-Good s g i lt (downgrading m) (exchange b) at = elim (Bool-cases (m == modulus - 1)) [
    | inl taken ↦ rw taken (later-Good g)
    | inr open_count ↦ rw open_count (
        passed (ltb m (modulus - 2)) _ (ground (arith, g.life.downgrader i m lt)) (
          good (try_downgrade-Inv few g.life i lt b m at (ground (arith, g.life.downgrader i m lt)))
            (try_downgrade-DataViews s g.life g.data_views i lt b m at)
            (try_downgrade-BoxViews s g.life g.box_views i lt b m at)))
  ]
  perform-Good s g i lt last_arc drop_data at =
      good (drop_content-Inv few g.life i lt at)
        (drop_content-DataViews s g.life g.data_views i lt at)
        (drop_content-BoxViews s g.life g.box_views i lt g.data_views at)
  perform-Good s g i lt dropping drop_implicit at =
      good (drop_implicit_weak-Inv few g.life i lt at)
        (drop_implicit_weak-DataViews s g.life g.data_views i lt at)
        (drop_implicit_weak-BoxViews s g.life g.box_views i lt at)
  perform-Good s g i lt last free at =
      good (free_box-Inv few g.life i lt at) (free_box-DataViews s g.life g.data_views i lt at)
        (free_box-BoxViews s g.life g.box_views i lt at)
  perform-Good s g i lt locking (test seen) at =
      good (test_unique-Inv few g.life i lt seen at)
        (test_unique-DataViews s g.life g.data_views i lt seen at)
        (test_unique-BoxViews s g.life g.box_views i lt seen at)
  perform-Good s g i lt (tested u) unlock at =
      good (unlock_alloc-Inv few g.life i lt u at)
        (unlock_alloc-DataViews s g.life g.data_views i lt u at)
        (unlock_alloc-BoxViews s g.life g.box_views i lt u at)
  perform-Good s g i lt exclusive (write f) at =
      good (update-Inv few g.life i lt f at) (update-DataViews s g.life g.data_views i lt f at)
        (update-BoxViews s g.life g.box_views i lt f at)
  perform-Good s g i lt aborting abort at = absurd (ground (arith, g.life.running i lt))
  perform-Good s g i lt _ _ at = later-Good g

  step-Good : (e : ℕ × Action T) (s : ArcData T) → Good n k s → Good n (suc k) (step n e s)
  unfolding step
  step-Good (i, e) s g =
      unless s.aborted g
        (guarded (ltb i n) g (λ h. perform-Good s g i (ground arith) (s.threads i).pc e refl))

-- After `m` steps in all.
run-Good :
    {T : Type 0} (n k m : ℕ) (es : List (ℕ × Action T)) (s : ArcData T)
    → m ≡ k + length es
    → m + 2 < max_half
    → Good n k s
    → Good n m (run (step n) es s)
unfolding run
run-Good n k m [] s e few g = let e' : m ≡ k = omega (arith, e) in rw e' g
run-Good n k m (x ∷ es) s e few g =
    run-Good n (suc k) m es (step n x s) (omega (arith, e)) few (step-Good (omega arith) x s g)

pub after-Good :
    {T : Type 0} (n : ℕ) (es : List (ℕ × Action T)) (v : T)
    → 0 < n
    → length es + 3 < max_half
    → Good n (1 + length es) (after n es v)
unfolding after
after-Good n es v some few =
    run-Good n 1 (1 + length es) es (start v) refl (omega arith)
      (good (start-Inv n v some) (start-DataViews n v) (start-BoxViews n v))
