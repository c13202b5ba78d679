-- ===== src/Arc/Optimized/Life.antt =====
-- The life of the data and of the box of an `Arc` with an implicit weak pointer: the data is dropped
-- when the last `Arc` goes, the box when the last weak pointer, implicit or not, goes.
use rust_atomics_and_locks.Base.{ℕ, ◌-◌, ◌≤◌, ◌<◌, ◌≡◌, ◌≢◌, ◌⊎◌, refl, arith}
use rust_atomics_and_locks.Arc.Word.{modulus}
use rust_atomics_and_locks.Arc.Optimized.{
  aborting, last_arc, dropping, last, exclusive, panicked, upgrading, downgrading, ArcData, start,
}
use rust_atomics_and_locks.Arc.Optimized.Tally.{weak_count, Counted, start-Counted}

-- What `alloc_ref_count` stands for.
abbrev pub weight : {T : Type 0} → ℕ → ArcData T → ℕ
weight n s = weak_count n s.data_ref_count.value s.threads

pub record Inv {T : Type 0} (n k : ℕ) (s : ArcData T) : Type 0 where
  pub count : Counted n k s
  pub freed_once : s.freed ≤ 1
  pub alive : 0 < weight n s → s.freed ≡ 0
  pub last_dead : (i : ℕ) → i < n → (s.threads i).pc ≡ last → (weight n s ≡ 0) × (s.freed ≡ 0)
  pub last_one :
      (i j : ℕ) → i < n → j < n → (s.threads i).pc ≡ last → (s.threads j).pc ≡ last → i ≡ j
  pub settled : weight n s ≡ 0 → (s.freed ≡ 1) ⊎ ((i : ℕ) × (i < n) × ((s.threads i).pc ≡ last))
  pub dropped_once : s.dropped ≤ 1
  pub undropped : 0 < s.data_ref_count.value → s.dropped ≡ 0
  pub clearing :
      (i : ℕ) → i < n → (s.threads i).pc ≡ last_arc → (s.data_ref_count.value ≡ 0) × (s.dropped ≡ 0)
  pub clearing_one :
      (i j : ℕ) → i < n → j < n → (s.threads i).pc ≡ last_arc → (s.threads j).pc ≡ last_arc → i ≡ j
  pub cleared :
      s.data_ref_count.value ≡ 0
      → (s.dropped ≡ 1) ⊎ ((i : ℕ) × (i < n) × ((s.threads i).pc ≡ last_arc))
  pub finishing :
      (i : ℕ) → i < n → (s.threads i).pc ≡ dropping → (s.data_ref_count.value ≡ 0) × (s.dropped ≡ 1)
  pub borrower : (i : ℕ) → i < n → (s.threads i).pc ≡ exclusive → 0 < (s.threads i).arcs
  pub upgrader :
      (i m : ℕ)
      → i < n
      → (s.threads i).pc ≡ upgrading m
      → (0 < (s.threads i).weaks) × (m ≢ 0) × (m ≤ k)
  pub downgrader :
      (i m : ℕ)
      → i < n
      → (s.threads i).pc ≡ downgrading m
      → (0 < (s.threads i).arcs) × ((m ≡ modulus - 1) ⊎ (m ≤ k))
  pub running : (i : ℕ) → i < n → ((s.threads i).pc ≢ aborting) × ((s.threads i).pc ≢ panicked)

pub start-Inv : {T : Type 0} (n : ℕ) (v : T) → 0 < n → Inv n 1 (start v)
unfolding start
start-Inv n v some = record {
  count = start-Counted n v some;
  freed_once = omega arith;
  alive = λ h. refl;
  last_dead = λ i l h. absurd (cc);
  last_one = λ i j l l' h h'. cc;
  settled = λ h. absurd (omega arith);
  dropped_once = omega arith;
  undropped = λ h. refl;
  clearing = λ i l h. absurd (cc);
  clearing_one = λ i j l l' h h'. cc;
  cleared = λ h. absurd (omega arith);
  finishing = λ i l h. absurd (cc);
  borrower = λ i l h. absurd (cc);
  upgrader = λ i m l h. absurd (cc);
  downgrader = λ i m l h. absurd (cc);
  running = λ i l. ((λ h. cc), λ h. cc);
}
