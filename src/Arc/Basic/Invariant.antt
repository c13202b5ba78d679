-- ===== src/Arc/Basic/Invariant.antt =====
-- The life of the box of an `Arc`: it is dropped when the count has come to 0, by the one thread
-- that brought it there.
use rust_atomics_and_locks.Base.{ℕ, ◌+◌, ◌≤◌, ◌<◌, ◌≡◌, ◌⊎◌, inl, inr, refl, arith}
use rust_atomics_and_locks.Arc.Word.{max_half}
use rust_atomics_and_locks.Arc.Basic.{
  idle, last, exclusive, Arc, start, clone_handle, read, drop_handle, free_box, borrow, update,
  hand_over, borrowed,
}
use rust_atomics_and_locks.Arc.Basic.Counting.{
  Counted, value_bounded, handles-le-value, two_handles, clone-Counted, drop-Counted, still-Counted,
  hand_over-Counted, start-Counted,
}

pub record Inv {T : Type 0} (n : ℕ) (s : Arc T) : Type 0 where
  pub count : Counted n s.ref_count.value s.threads
  pub freed_once : s.freed ≤ 1
  pub alive : 0 < s.ref_count.value → s.freed ≡ 0
  pub last_dead :
      (i : ℕ) → i < n → (s.threads i).pc ≡ last → (s.ref_count.value ≡ 0) × (s.freed ≡ 0)
  pub last_one :
      (i j : ℕ) → i < n → j < n → (s.threads i).pc ≡ last → (s.threads j).pc ≡ last → i ≡ j
  pub settled :
      s.ref_count.value ≡ 0 → (s.freed ≡ 1) ⊎ ((i : ℕ) × (i < n) × ((s.threads i).pc ≡ last))
  pub alone :
      (i : ℕ)
      → i < n
      → (s.threads i).pc ≡ exclusive
      → (s.ref_count.value ≡ 1) × ((s.threads i).handles ≡ 1)

pub start-Inv : {T : Type 0} (n : ℕ) (v : T) → 0 < n → Inv n (start v)
unfolding start
start-Inv n v some = record {
  count = start-Counted n v some;
  freed_once = omega arith;
  alive = λ h. refl;
  last_dead = λ i l h. absurd (cc);
  last_one = λ i j l l' h h'. cc;
  settled = λ h. absurd (omega arith);
  alone = λ i l h. absurd (cc);
}

module _ {T : Type 0} {n : ℕ} {s : Arc T} (few : n + 1 < max_half) (inv : Inv n s) (i : ℕ)
    (lt : i < n) where
  open inv use {count, freed_once, alive, last_dead, last_one, settled, alone}

  pub clone-Inv : (s.threads i).pc ≡ idle → 0 < (s.threads i).handles → Inv n (clone_handle i s)
  unfolding clone_handle
  clone-Inv at some = record {
    count = clone-Counted s count few i lt at;
    freed_once = freed_once;
    alive = λ h. ground (arith, alive, handles-le-value s count i lt);
    last_dead = λ j l h. ground (arith, last_dead j, handles-le-value s count i lt);
    last_one = λ j k l l' h h'. ground (arith, last_one j k);
    settled = λ h. ground (arith, handles-le-value s count i lt, value_bounded s count few);
    alone = λ j l h. ground (arith, alone j, two_handles s count i j lt);
  }

  pub drop-Inv : (s.threads i).pc ≡ idle → 0 < (s.threads i).handles → Inv n (drop_handle i s)
  unfolding drop_handle
  drop-Inv at some = record {
    count = drop-Counted s count few i lt at some;
    freed_once = freed_once;
    alive = λ h. ground (arith, alive, value_bounded s count few, handles-le-value s count i lt);
    last_dead = λ j l h.
        ground
          (arith, last_dead j, alive, value_bounded s count few, handles-le-value s count i lt);
    last_one = λ j k l l' h h'.
        ground (arith, last_one j k, last_dead j, last_dead k, handles-le-value s count i lt);
    settled =
        λ h. inr (i, lt, ground (arith, value_bounded s count few, handles-le-value s count i lt));
    alone = λ j l h. ground (arith, alone j, two_handles s count i j lt);
  }

  pub free-Inv : (s.threads i).pc ≡ last → Inv n (free_box i s)
  unfolding free_box
  free-Inv at = record {
    count = still-Counted s count i _ lt refl (rw at);
    freed_once = ground (arith, last_dead i lt);
    alive = λ h. ground (arith, last_dead i lt);
    last_dead = λ j l h. ground (arith, last_one i j);
    last_one = λ j k l l' h h'. ground (arith, last_one j k);
    settled = λ h. inl (ground (arith, last_dead i lt));
    alone = λ j l h. ground (arith, alone j, last_dead i lt);
  }

  pub hand_over-Inv :
      (j : ℕ)
      → j < n
      → (s.threads i).pc ≡ idle
      → 0 < (s.threads i).handles
      → Inv n (hand_over i j s)
  unfolding hand_over
  hand_over-Inv j lj at some = record {
    count = hand_over-Counted s count i j lt lj some;
    freed_once = freed_once;
    alive = alive;
    last_dead = λ k l h. ground (arith, last_dead k, handles-le-value s count i lt);
    last_one = λ k m l l' h h'. ground (arith, last_one k m);
    settled = λ h. ground (arith, handles-le-value s count i lt);
    alone = λ k l h. ground (arith, alone k, two_handles s count i k lt);
  }

  pub read-Inv : (s.threads i).pc ≡ idle → Inv n (read i s)
  unfolding read
  read-Inv at = record {
    count = still-Counted s count i _ lt refl refl;
    freed_once = freed_once;
    alive = alive;
    last_dead = λ j l h. ground (arith, last_dead j);
    last_one = λ j k l l' h h'. ground (arith, last_one j k);
    settled = λ h. ground (arith, settled);
    alone = λ j l h. ground (arith, alone j);
  }

  pub borrow-Inv : (s.threads i).pc ≡ idle → 0 < (s.threads i).handles → Inv n (borrow i s)
  unfolding borrow
  borrow-Inv at some = record {
    count = still-Counted s count i (borrowed s (s.threads i)) lt (ground arith) (ground arith);
    freed_once = freed_once;
    alive = alive;
    last_dead = λ j l h. ground (arith, last_dead j);
    last_one = λ j k l l' h h'. ground (arith, last_one j k);
    settled = λ h. ground (arith, handles-le-value s count i lt);
    alone = λ j l h. ground (arith, alone j, handles-le-value s count i lt);
  }

  pub update-Inv : (f : T → T) → (s.threads i).pc ≡ exclusive → Inv n (update i f s)
  unfolding update
  update-Inv f at = record {
    count = still-Counted s count i _ lt refl (rw at);
    freed_once = freed_once;
    alive = alive;
    last_dead = λ j l h. ground (arith, last_dead j);
    last_one = λ j k l l' h h'. ground (arith, last_one j k);
    settled = λ h. ground (arith, alone i lt);
    alone = λ j l h. ground (arith, alone j);
  }
