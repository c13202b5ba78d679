-- ===== src/LazyInit/Safety.antt =====
-- What `get_data` of examples/03-05-02_lazy-initialization-with-dereferences.rs promises.
use rust_atomics_and_locks.Base.{ℕ, ◌≡◌, ◌≢◌, ◌⊎◌, true, List, arith}
use rust_atomics_and_locks.Memory.{Covers}
use rust_atomics_and_locks.LazyInit.{losing, done, Action, after}
use rust_atomics_and_locks.LazyInit.Invariant.{own, after-Inv}

module _ (es : List (ℕ × Action)) where
  -- Whatever the threads do, every call of `get_data` that returns gives the pointer that is
  -- published, its box has not been dropped, and the writing of the box happens before what the
  -- thread does with it.
  pub one_initialization :
      (i p : ℕ)
      → ((after es).threads i).pc ≡ done p
      → (p ≡ (after es).ptr.value)
        × ((after es).live p ≡ true)
        × Covers ((after es).threads i).local.seen ((after es).boxes p).accesses
  one_initialization i p at =
      let inv = after-Inv es in
      (
        ground (arith, inv.agreed i, inv.named_done i p),
        ground (arith, inv.agreed i, inv.named_done i p, inv.published),
        λ k. ground (arith, inv.agreed i, inv.named_done i p, inv.agreed_known i k),
      )

  -- No box leaks: one that is not dropped is the published one, or a thread that has lost or has
  -- yet to try the exchange still owns it.
  pub loser_drops :
      (p : ℕ)
      → (after es).live p ≡ true
      → (p ≡ (after es).ptr.value) ⊎ ((i : ℕ) × (own ((after es).threads i).pc ≡ p))
  loser_drops p h = ((after-Inv es).no_leak p h).1

  -- A thread that drops its box after the lost exchange drops one that is not yet dropped, which
  -- is not the published one, and which no other thread owns.
  pub drops_its_own :
      (i j p q : ℕ)
      → i ≢ j
      → ((after es).threads i).pc ≡ losing p q
      → ((after es).live p ≡ true)
        × (p ≢ (after es).ptr.value)
        × (own ((after es).threads j).pc ≢ p)
  drops_its_own i j p q apart at =
      let inv = after-Inv es in
      (
        ground (arith, inv.owned i, inv.named_loser i p q),
        ground (arith, inv.owned i, inv.named_loser i p q),
        ground (arith, inv.apart i j, inv.named_loser i p q),
      )
