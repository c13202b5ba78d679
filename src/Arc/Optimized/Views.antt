-- ===== src/Arc/Optimized/Views.antt =====
-- What the threads know of one another's accesses to the data and to the box.
use rust_atomics_and_locks.Base.{ℕ, ◌≤◌, ◌<◌, ◌≡◌, ◌⊎◌, inl, arith, sum, max}
use rust_atomics_and_locks.Arc.Optimized.{last_arc, dropping, last, ArcData, start}
use rust_atomics_and_locks.Arc.Optimized.Tally.{weaks_of}

-- The views are compared at the accesses of thread `k`.
pub record DataViews {T : Type 0} (n : ℕ) (s : ArcData T) : Type 0 where
  pub known :
      (k : ℕ)
      → 0 < s.data_ref_count.value
      → (s.content.accesses k ≤ s.data_ref_count.released k)
        ⊎ ((i : ℕ) × (i < n)
            × (0 < (s.threads i).arcs)
            × (s.content.accesses k ≤ (s.threads i).local.seen k))
  pub last_knows :
      (i k : ℕ)
      → i < n
      → (s.threads i).pc ≡ last_arc
      → s.content.accesses k ≤ max ((s.threads i).local.seen k) ((s.threads i).local.unfenced k)

pub record BoxViews {T : Type 0} (n : ℕ) (s : ArcData T) : Type 0 where
  pub handed_on :
      (k : ℕ)
      → s.dropped ≡ 1
      → s.freed ≡ 0
      → 0 < sum weaks_of n s.threads
      → (s.content.accesses k ≤ s.alloc_ref_count.released k)
        ⊎ ((i : ℕ) × (i < n)
            × ((s.threads i).pc ≡ dropping)
            × (s.content.accesses k ≤ (s.threads i).local.seen k))
  pub freer_knows :
      (i k : ℕ)
      → i < n
      → (s.threads i).pc ≡ last
      → s.content.accesses k ≤ max ((s.threads i).local.seen k) ((s.threads i).local.unfenced k)

pub start-DataViews : {T : Type 0} (n : ℕ) (v : T) → DataViews n (start v)
unfolding start
start-DataViews n v = record {
  known = λ k h. inl (omega arith);
  last_knows = λ i k l h. omega arith;
}

pub start-BoxViews : {T : Type 0} (n : ℕ) (v : T) → BoxViews n (start v)
unfolding start
start-BoxViews n v = record {
  handed_on = λ k h f w. absurd (omega arith);
  freer_knows = λ i k l h. omega arith;
}
