-- ===== src/Arc/Basic/Steps.antt =====
-- Every step of the threads keeps both invariants of an `Arc`.
use rust_atomics_and_locks.Base.{
  ℕ, ◌+◌, ◌<◌, ◌≡◌, refl, Bool, true, false, List, arith, ltb, run_invariant, ◌&&◌, if◌then◌else◌,
}
use rust_atomics_and_locks.Arc.Word.{max_half}
use rust_atomics_and_locks.Arc.Basic.{
  Pc, idle, aborting, last, exclusive, Arc, Action, clone, abort, deref, drop, free, get_mut, give,
  write, start, perform, step, after,
}
use rust_atomics_and_locks.Arc.Basic.Invariant.{
  Inv, start-Inv, clone-Inv, read-Inv, drop-Inv, free-Inv, borrow-Inv, update-Inv, hand_over-Inv,
}
use rust_atomics_and_locks.Arc.Basic.Sharing.{
  Shared, start-Shared, clone-Shared, read-Shared, drop-Shared, free-Shared, borrow-Shared,
  update-Shared, hand_over-Shared,
}

pub record Good {T : Type 0} (n : ℕ) (s : Arc T) : Type 0 where
  pub life : Inv n s
  pub views : Shared n s

-- What an operation does under its test.
guarded :
    {T : Type 0} {n : ℕ} {s t : Arc T} (b : Bool)
    → Good n s
    → (b ≡ true → Good n t)
    → Good n (if b then t else s)
guarded true g h = h refl
guarded false g h = g

unless :
    {T : Type 0} {n : ℕ} {s t : Arc T} (b : Bool)
    → Good n s
    → Good n t
    → Good n (if b then s else t)
unless true g h = g
unless false g h = h

module _ {T : Type 0} {n : ℕ} (few : n + 1 < max_half) where
  perform-Good :
      (s : Arc T)
      → Good n s
      → (i : ℕ) → i < n
      → (p : Pc) (e : Action T) → (s.threads i).pc ≡ p
      → Good n (perform n i p e s)
  unfolding perform
  perform-Good s g i lt idle clone at = guarded (ltb 0 (s.threads i).handles) g (λ h. record {
    life = clone-Inv few g.life i lt at (ground arith);
    views = clone-Shared s g.life g.views i lt at (ground arith);
  })
  perform-Good s g i lt idle deref at = guarded (ltb 0 (s.threads i).handles) g (λ h. record {
    life = read-Inv few g.life i lt at;
    views = read-Shared s g.life g.views i lt at (ground arith);
  })
  perform-Good s g i lt idle drop at = guarded (ltb 0 (s.threads i).handles) g (λ h. record {
    life = drop-Inv few g.life i lt at (ground arith);
    views = drop-Shared s g.life g.views i lt at (ground arith);
  })
  perform-Good s g i lt idle get_mut at = guarded (ltb 0 (s.threads i).handles) g (λ h. record {
    life = borrow-Inv few g.life i lt at (ground arith);
    views = borrow-Shared s g.life g.views i lt at (ground arith);
  })
  perform-Good s g i lt idle (give j) at = guarded (ltb 0 (s.threads i).handles && ltb j n) g (λ h.
      record {
        life = hand_over-Inv few g.life i lt j (ground arith) at (ground arith);
        views = hand_over-Shared s g.life g.views i lt j (ground arith) at (ground arith);
      })
  perform-Good s g i lt aborting abort at = record {
    life = record {
      count = g.life.count;
      freed_once = g.life.freed_once;
      alive = g.life.alive;
      last_dead = g.life.last_dead;
      last_one = g.life.last_one;
      settled = g.life.settled;
      alone = g.life.alone;
    };
    views = record {
      known = g.views.known;
      last_knows = g.views.last_knows;
      owner_knows = g.views.owner_knows;
      reader_knows = g.views.reader_knows;
    };
  }
  perform-Good s g i lt last free at = record {
    life = free-Inv few g.life i lt at;
    views = free-Shared s g.life g.views i lt at;
  }
  perform-Good s g i lt exclusive (write f) at = record {
    life = update-Inv few g.life i lt f at;
    views = update-Shared s g.life g.views i lt f at;
  }
  perform-Good s g i lt _ _ at = g

  step-Good : (e : ℕ × Action T) (s : Arc T) → Good n s → Good n (step n e s)
  unfolding step
  step-Good (i, e) s g =
      unless s.aborted g
        (guarded (ltb i n) g (λ h. perform-Good s g i (ground arith) (s.threads i).pc e refl))

  pub after-Good : (es : List (ℕ × Action T)) (v : T) → 0 < n → Good n (after n es v)
  unfolding after
  after-Good es v some =
      run_invariant (step n) (Good n) step-Good es (start v)
        (record { life = start-Inv n v some; views = start-Shared n v })
