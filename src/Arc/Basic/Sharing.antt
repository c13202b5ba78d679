-- ===== src/Arc/Basic/Sharing.antt =====
-- What the threads know of one another's accesses: all of it reaches the thread that frees the box
-- and the one that borrows it mutably.
use rust_atomics_and_locks.Base.{ℕ, ◌≤◌, ◌<◌, ◌≡◌, ◌⊎◌, inl, inr, arith, ◌==◌, Bool-cases, max}
use rust_atomics_and_locks.Arc.Basic.{
  idle, last, exclusive, Arc, start, clone_handle, read, drop_handle, free_box, borrow, update,
  hand_over,
}
use rust_atomics_and_locks.Arc.Basic.Counting.{handles-le-value, two_handles}
use rust_atomics_and_locks.Arc.Basic.Invariant.{Inv}

-- The views are compared at the accesses of thread `k`.
pub record Shared {T : Type 0} (n : ℕ) (s : Arc T) : Type 0 where
  pub known :
      (k : ℕ)
      → s.freed ≡ 0
      → (s.content.accesses k ≤ s.ref_count.released k)
        ⊎ ((i : ℕ) × (i < n)
            × (0 < (s.threads i).handles)
            × (s.content.accesses k ≤ (s.threads i).local.seen k))
  pub last_knows :
      (i k : ℕ)
      → i < n
      → (s.threads i).pc ≡ last
      → s.content.accesses k ≤ max ((s.threads i).local.seen k) ((s.threads i).local.unfenced k)
  pub owner_knows :
      (i k : ℕ)
      → i < n
      → (s.threads i).pc ≡ exclusive
      → s.content.accesses k ≤ (s.threads i).local.seen k
  pub reader_knows :
      (i k : ℕ) → i < n → 0 < (s.threads i).handles → s.written k ≤ (s.threads i).local.seen k

pub start-Shared : {T : Type 0} (n : ℕ) (v : T) → Shared n (start v)
unfolding start
start-Shared n v = record {
  known = λ k h. inl (omega arith);
  last_knows = λ i k l h. omega arith;
  owner_knows = λ i k l h. omega arith;
  reader_knows = λ i k l h. omega arith;
}

module _ {T : Type 0} {n : ℕ} (s : Arc T) (inv : Inv n s) (sh : Shared n s) (i : ℕ)
    (lt : i < n) where
  open inv use {count, freed_once, alive, last_dead, last_one, settled, alone}
  open sh use {known, last_knows, owner_knows, reader_knows}

  pub clone-Shared :
      (s.threads i).pc ≡ idle → 0 < (s.threads i).handles → Shared n (clone_handle i s)
  unfolding clone_handle
  clone-Shared at some = record {
    known = λ k h. elim (known k h) [
      | inl p ↦ inl p
      | inr (j, l, has, p) ↦ inr (j, l, ground arith, ground arith)
    ];
    last_knows = λ j k l h. ground (arith, last_knows j k);
    owner_knows = λ j k l h. ground (arith, owner_knows j k);
    reader_knows = λ j k l h. ground (arith, reader_knows j k);
  }

  pub read-Shared : (s.threads i).pc ≡ idle → 0 < (s.threads i).handles → Shared n (read i s)
  unfolding read
  read-Shared at some = record {
    known = λ k h. elim (Bool-cases (i == k)) [
      | inl same ↦ inr (i, lt, ground arith, ground arith)
      | inr other ↦ elim (known k h) [
        | inl p ↦ inl (ground arith)
        | inr (j, l, has, p) ↦ inr (j, l, ground arith, ground arith)
      ]
    ];
    last_knows = λ j k l h. ground (arith, last_dead j l, handles-le-value s count i lt);
    owner_knows = λ j k l h. ground (arith, alone j l, two_handles s count i j lt l);
    reader_knows = λ j k l h. ground (arith, reader_knows j k);
  }

  pub drop-Shared : (s.threads i).pc ≡ idle → 0 < (s.threads i).handles → Shared n (drop_handle i s)
  unfolding drop_handle
  drop-Shared at some = record {
    known = λ k h. elim (known k h) [
      | inl p ↦ inl (omega arith)
      | inr (j, l, has, p) ↦ elim (Bool-cases (i == j)) [
        | inl same ↦ inl (ground arith)
        | inr other ↦ inr (j, l, ground arith, ground arith)
      ]
    ];
    last_knows = λ j k l h. elim (known k (alive (omega (arith, handles-le-value s count i lt)))) [
      | inl p ↦ ground (arith, last_dead j l, handles-le-value s count i lt)
      | inr (m, l', has, p) ↦
          ground
            (arith, last_dead j l, handles-le-value s count i lt, two_handles s count i m lt l')
    ];
    owner_knows = λ j k l h. ground (arith, owner_knows j k);
    reader_knows = λ j k l h. ground (arith, reader_knows j k);
  }

  pub free-Shared : (s.threads i).pc ≡ last → Shared n (free_box i s)
  unfolding free_box
  free-Shared at = record {
    known = λ k h. absurd (omega arith);
    last_knows = λ j k l h. ground (arith, last_one i j lt l);
    owner_knows = λ j k l h. ground (arith, alone j l, last_dead i lt);
    reader_knows = λ j k l h. ground (arith, reader_knows j k);
  }

  pub borrow-Shared : (s.threads i).pc ≡ idle → 0 < (s.threads i).handles → Shared n (borrow i s)
  unfolding borrow
  borrow-Shared at some = record {
    known = λ k h. elim (known k h) [
      | inl p ↦ inl p
      | inr (j, l, has, p) ↦ inr (j, l, ground arith, ground arith)
    ];
    last_knows = λ j k l h. ground (arith, last_knows j k);
    owner_knows = λ j k l h. elim (known k (alive (omega (arith, handles-le-value s count i lt)))) [
      | inl p ↦ ground (arith, owner_knows j k)
      | inr (m, l', has, p) ↦ ground (arith, owner_knows j k, two_handles s count i m lt l')
    ];
    reader_knows = λ j k l h. ground (arith, reader_knows j k);
  }

  pub update-Shared : (f : T → T) → (s.threads i).pc ≡ exclusive → Shared n (update i f s)
  unfolding update
  update-Shared f at = record {
    known = λ k h. inr (i, lt, ground (arith, alone i lt), ground (arith, owner_knows i k));
    last_knows = λ j k l h. ground (arith, last_dead j l, alone i lt);
    owner_knows = λ j k l h. ground (arith, alone j l, alone i lt, two_handles s count i j lt l);
    reader_knows =
        λ j k l h. ground (arith, owner_knows i k, alone i lt, two_handles s count i j lt l);
  }

  pub hand_over-Shared :
      (j : ℕ)
      → j < n
      → (s.threads i).pc ≡ idle
      → 0 < (s.threads i).handles
      → Shared n (hand_over i j s)
  unfolding hand_over
  hand_over-Shared j lj at some = record {
    known = λ k h. elim (known k h) [
      | inl p ↦ inl p
      | inr (m, l, has, p) ↦ elim (Bool-cases (i == m)) [
        | inl same ↦ inr (j, lj, ground arith, ground arith)
        | inr other ↦ inr (m, l, ground arith, ground arith)
      ]
    ];
    last_knows = λ m k l h. ground (arith, last_dead m l, handles-le-value s count i lt);
    owner_knows = λ m k l h. ground (arith, alone m l, two_handles s count i m lt l);
    reader_knows = λ m k l h. ground (arith, reader_knows m k, reader_knows i k);
  }
