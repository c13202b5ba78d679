-- ===== src/Arc/Optimized/Idling.antt =====
-- Steps that leave counts and handles borrower keep the invariant.
use rust_atomics_and_locks.Base.{ℕ, suc, true, arith}
use rust_atomics_and_locks.Arc.Optimized.{Thread, ArcData}
use rust_atomics_and_locks.Arc.Optimized.Tally.{Tally}
use rust_atomics_and_locks.Arc.Optimized.Life.{Inv}

-- A step that does nothing.
later-Tally :
    {n k alloc strong : ℕ} {f : ℕ → Thread}
    → Tally n k alloc strong f
    → Tally n (suc k) alloc strong f
later-Tally c = record {
  strong_exact = c.strong_exact;
  lock_arcs = c.lock_arcs;
  one_lock = c.one_lock;
  exact = c.exact;
  locked = c.locked;
  small = omega (arith, c.small);
  strong_small = omega (arith, c.strong_small);
}

pub later-Inv : {T : Type 0} {n k : ℕ} {s : ArcData T} → Inv n k s → Inv n (suc k) s
later-Inv inv = record {
  count = later-Tally inv.count;
  freed_once = inv.freed_once;
  alive = inv.alive;
  last_dead = inv.last_dead;
  last_one = inv.last_one;
  settled = inv.settled;
  dropped_once = inv.dropped_once;
  undropped = inv.undropped;
  clearing = inv.clearing;
  clearing_one = inv.clearing_one;
  cleared = inv.cleared;
  finishing = inv.finishing;
  borrower = inv.borrower;
  upgrader = λ i m l h. ground (arith, inv.upgrader i m);
  downgrader = λ i m l h. ground (arith, inv.downgrader i m);
  running = inv.running;
}

pub aborted-Inv :
    {T : Type 0} {n k : ℕ} {s : ArcData T} → Inv n k s → Inv n (suc k) (record s { aborted = true })
aborted-Inv inv = record {
  count = later-Tally inv.count;
  freed_once = inv.freed_once;
  alive = inv.alive;
  last_dead = inv.last_dead;
  last_one = inv.last_one;
  settled = inv.settled;
  dropped_once = inv.dropped_once;
  undropped = inv.undropped;
  clearing = inv.clearing;
  clearing_one = inv.clearing_one;
  cleared = inv.cleared;
  finishing = inv.finishing;
  borrower = inv.borrower;
  upgrader = λ i m l h. ground (arith, inv.upgrader i m);
  downgrader = λ i m l h. ground (arith, inv.downgrader i m);
  running = inv.running;
}
