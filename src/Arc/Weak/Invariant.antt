-- ===== src/Arc/Weak/Invariant.antt =====
-- The life of the data and of the box of an `Arc` with weak pointers: the data is dropped when the
-- last `Arc` goes, the box when the last handle goes.
use rust_atomics_and_locks.Base.{ℕ, ◌+◌, ◌≤◌, ◌<◌, ◌≡◌, ◌≢◌, ◌⊎◌, refl, arith, sum-eq-zero}
use rust_atomics_and_locks.Arc.Word.{modulus}
use rust_atomics_and_locks.Arc.Weak.{
  cloning, upgrading, upgraded, last_arc, last, exclusive, panicked, ArcData, start, present,
}
use rust_atomics_and_locks.Arc.Weak.Counting.{data_owed, alloc-le, start-Counted}
use rust_atomics_and_locks.Arc.Weak.Exactness.{Exact}

pub record Inv {T : Type 0} (n : ℕ) (s : ArcData T) : Type 0 where
  pub count : Exact n s
  pub freed_once : s.freed ≤ 1
  pub alive : 0 < s.alloc_ref_count.value → s.freed ≡ 0
  pub last_dead :
      (i : ℕ) → i < n → (s.threads i).pc ≡ last → (s.alloc_ref_count.value ≡ 0) × (s.freed ≡ 0)
  pub last_one :
      (i j : ℕ) → i < n → j < n → (s.threads i).pc ≡ last → (s.threads j).pc ≡ last → i ≡ j
  pub settled :
      s.alloc_ref_count.value ≡ 0 → (s.freed ≡ 1) ⊎ ((i : ℕ) × (i < n) × ((s.threads i).pc ≡ last))
  pub whole : s.dropped + present s.content.content ≡ 1
  pub undropped : 0 < s.data_ref_count.value → s.dropped ≡ 0
  pub clearing :
      (i : ℕ) → i < n → (s.threads i).pc ≡ last_arc → (s.data_ref_count.value ≡ 0) × (s.dropped ≡ 0)
  pub clearing_one :
      (i j : ℕ) → i < n → j < n → (s.threads i).pc ≡ last_arc → (s.threads j).pc ≡ last_arc → i ≡ j
  pub cleared :
      s.data_ref_count.value ≡ 0
      → (s.dropped ≡ 1) ⊎ ((i : ℕ) × (i < n) × ((s.threads i).pc ≡ last_arc))
  pub alone :
      (i : ℕ)
      → i < n
      → (s.threads i).pc ≡ exclusive
      → (s.alloc_ref_count.value ≡ 1) × ((s.threads i).arcs ≡ 1)
  pub cloner : (i : ℕ) → i < n → (s.threads i).pc ≡ cloning → 0 < (s.threads i).arcs
  pub upgrader :
      (i m : ℕ)
      → i < n
      → (s.threads i).pc ≡ upgrading m
      → (0 < (s.threads i).weaks) × (m ≢ 0) × (m + 1 < modulus)
  pub upgrader_done : (i : ℕ) → i < n → (s.threads i).pc ≡ upgraded → 0 < (s.threads i).weaks
  pub sound : (i : ℕ) → i < n → (s.threads i).pc ≢ panicked

pub start-Inv : {T : Type 0} (n : ℕ) (v : T) → 0 < n → Inv n (start v)
unfolding start
start-Inv n v some = record {
  count = start-Counted n v some;
  freed_once = omega arith;
  alive = λ h. refl;
  last_dead = λ i l h. absurd (cc);
  last_one = λ i j l l' h h'. cc;
  settled = λ h. absurd (omega arith);
  whole = refl;
  undropped = λ h. refl;
  clearing = λ i l h. absurd (cc);
  clearing_one = λ i j l l' h h'. cc;
  cleared = λ h. absurd (omega arith);
  alone = λ i l h. absurd (cc);
  cloner = λ i l h. absurd (cc);
  upgrader = λ i m l h. absurd (cc);
  upgrader_done = λ i l h. absurd (cc);
  sound = λ i l h. cc;
}

-- Without a handle there is no `Arc`.
pub no_data :
    {T : Type 0} {n : ℕ} {s : ArcData T}
    → Inv n s
    → s.alloc_ref_count.value ≡ 0
    → s.data_ref_count.value ≡ 0
no_data {n = n} {s = s} inv h = omega (
  arith,
  inv.count.data_exact,
  sum-eq-zero data_owed n s.threads
      (λ j l. ground (arith, alloc-le inv.count j l, inv.upgrader_done j l)),
)
