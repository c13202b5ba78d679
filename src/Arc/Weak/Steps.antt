-- ===== src/Arc/Weak/Steps.antt =====
-- Every step of the threads keeps the invariant of an `Arc` with weak pointers.
use rust_atomics_and_locks.Base.{
  ℕ, ◌+◌, ◌*◌, ◌-◌, ◌<◌, ◌≡◌, refl, Bool, true, false, List, arith, ltb, run_invariant, ◌&&◌,
  if◌then◌else◌,
}
use rust_atomics_and_locks.Arc.Word.{modulus, max_half}
use rust_atomics_and_locks.Arc.Weak.{
  idle, cloning, upgrading, upgraded, aborting_weak, aborting_arc, last_arc, dropping, last,
  exclusive, Pc, ArcData, Action, clone, count_data, downgrade, clone_weak, upgrade, count_alloc,
  drop, clear, drop_inner, drop_weak, free, get_mut, deref, abort, exchange, give, give_weak, write,
  start, perform, step, after,
}
use rust_atomics_and_locks.Arc.Weak.Invariant.{Inv, start-Inv}
use rust_atomics_and_locks.Arc.Weak.Gaining.{
  add_weak-Inv, begin_clone-Inv, finish_clone-Inv, begin_upgrade-Inv, try_upgrade-Inv,
  finish_upgrade-Inv,
}
use rust_atomics_and_locks.Arc.Weak.Losing.{
  drop_arc-Inv, clear_data-Inv, drop_inner_weak-Inv, drop_one_weak-Inv, free_box-Inv,
}
use rust_atomics_and_locks.Arc.Weak.Using.{
  borrow-Inv, update-Inv, read-Inv, hand_over-Inv, hand_over_weak-Inv,
}

-- What an operation does under its test.
guarded :
    {T : Type 0} {n : ℕ} {s t : ArcData T} (b : Bool)
    → Inv n s
    → (b ≡ true → Inv n t)
    → Inv n (if b then t else s)
guarded true g h = h refl
guarded false g h = g

unless :
    {T : Type 0} {n : ℕ} {s t : ArcData T} (b : Bool)
    → Inv n s
    → Inv n t
    → Inv n (if b then s else t)
unless true g h = g
unless false g h = h

-- An assertion that holds.
passed :
    {T : Type 0} {n : ℕ} {s : ArcData T} (b : Bool) (t : ArcData T)
    → b ≡ true
    → Inv n s
    → Inv n (if b then s else t)
passed true t e g = g
passed false t e g = absurd (cc)

aborted-Inv : {T : Type 0} {n : ℕ} {s : ArcData T} → Inv n s → Inv n (record s { aborted = true })
aborted-Inv inv = record {
  count = inv.count;
  freed_once = inv.freed_once;
  alive = inv.alive;
  last_dead = inv.last_dead;
  last_one = inv.last_one;
  settled = inv.settled;
  whole = inv.whole;
  undropped = inv.undropped;
  clearing = inv.clearing;
  clearing_one = inv.clearing_one;
  cleared = inv.cleared;
  alone = inv.alone;
  cloner = inv.cloner;
  upgrader = inv.upgrader;
  upgrader_done = inv.upgrader_done;
  sound = inv.sound;
}

module _ {T : Type 0} {n : ℕ} (few : 2 * n + 2 < max_half) where
  perform-Inv :
      (s : ArcData T)
      → Inv n s
      → (i : ℕ) → i < n
      → (p : Pc) (e : Action T) → (s.threads i).pc ≡ p
      → Inv n (perform n i p e s)
  unfolding perform
  perform-Inv s g i lt idle clone at =
      guarded (ltb 0 (s.threads i).arcs) g (λ h. begin_clone-Inv few g i lt at (ground arith))
  perform-Inv s g i lt idle downgrade at =
      guarded (ltb 0 (s.threads i).arcs) g (λ h. add_weak-Inv few g i lt at (ground arith))
  perform-Inv s g i lt idle drop at =
      guarded (ltb 0 (s.threads i).arcs) g (λ h. drop_arc-Inv few g i lt at (ground arith))
  perform-Inv s g i lt idle get_mut at =
      guarded (ltb 0 (s.threads i).arcs) g (λ h. borrow-Inv few g i lt at (ground arith))
  perform-Inv s g i lt idle deref at =
      guarded (ltb 0 (s.threads i).arcs) g (λ h. read-Inv few g i lt at)
  perform-Inv s g i lt idle clone_weak at =
      guarded (ltb 0 (s.threads i).weaks) g (λ h. add_weak-Inv few g i lt at (ground arith))
  perform-Inv s g i lt idle upgrade at =
      guarded (ltb 0 (s.threads i).weaks) g (λ h. begin_upgrade-Inv few g i lt at (ground arith))
  perform-Inv s g i lt idle drop_weak at =
      guarded (ltb 0 (s.threads i).weaks) g (λ h. drop_one_weak-Inv few g i lt at (ground arith))
  perform-Inv s g i lt idle (give j) at =
      guarded (ltb 0 (s.threads i).arcs && ltb j n) g
        (λ h. hand_over-Inv few g i lt j (ground arith) at (ground arith))
  perform-Inv s g i lt idle (give_weak j) at =
      guarded (ltb 0 (s.threads i).weaks && ltb j n) g
        (λ h. hand_over_weak-Inv few g i lt j (ground arith) at (ground arith))
  perform-Inv s g i lt cloning count_data at = finish_clone-Inv few g i lt at
  perform-Inv s g i lt (upgrading m) (exchange b) at =
      passed (ltb m (modulus - 1)) _ (ground (arith, g.upgrader i m lt at))
        (try_upgrade-Inv few g i lt b m at)
  perform-Inv s g i lt upgraded count_alloc at = finish_upgrade-Inv few g i lt at
  perform-Inv s g i lt last_arc clear at = clear_data-Inv few g i lt at
  perform-Inv s g i lt dropping drop_inner at = drop_inner_weak-Inv few g i lt at
  perform-Inv s g i lt last free at = free_box-Inv few g i lt at
  perform-Inv s g i lt exclusive (write f) at = update-Inv few g i lt f at
  perform-Inv s g i lt aborting_weak abort at = aborted-Inv g
  perform-Inv s g i lt aborting_arc abort at = aborted-Inv g
  perform-Inv s g i lt _ _ at = g

  step-Inv : (e : ℕ × Action T) (s : ArcData T) → Inv n s → Inv n (step n e s)
  unfolding step
  step-Inv (i, e) s g =
      unless s.aborted g
        (guarded (ltb i n) g (λ h. perform-Inv s g i (ground arith) (s.threads i).pc e refl))

  pub after-Inv : (es : List (ℕ × Action T)) (v : T) → 0 < n → Inv n (after n es v)
  unfolding after
  after-Inv es v some = run_invariant (step n) (Inv n) step-Inv es (start v) (start-Inv n v some)
