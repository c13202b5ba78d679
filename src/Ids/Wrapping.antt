-- ===== src/Ids/Wrapping.antt =====
-- examples/02-02-03_issuing-ids.rs: the two functions that only add. Each call is one atomic
-- operation on the static counter, so the calls of all threads form one sequence.
use rust_atomics_and_locks.Base.{
  ℕ, zero, suc, ◌+◌, ◌%◌, ◌<◌, ◌≡◌, ◌≢◌, refl, Option, some, none, arith, ltb, if◌then◌else◌,
}
use rust_atomics_and_locks.Memory.{relaxed, Atomic, fresh, new, fetch_add}
use rust_atomics_and_locks.Ids.Countdown.{modulus}

-- `NEXT_ID.fetch_add(1, Relaxed)`
pub allocate_new_id_with_wrap_around : Atomic ℕ → ℕ × Atomic ℕ
allocate_new_id_with_wrap_around next_id =
    let r = fetch_add modulus relaxed 1 next_id fresh in (r.0, r.1)

-- The same, and then `assert!(id < 10)`: `none` is the panic.
unfoldable pub allocate_new_id_with_problem : Atomic ℕ → Option ℕ × Atomic ℕ
allocate_new_id_with_problem next_id =
    let r = fetch_add modulus relaxed 1 next_id fresh in
    (if ltb r.0 10 then some r.0 else none, r.1)

-- The counter after `k` calls of either.
pub after_wrapping : ℕ → Atomic ℕ
after_wrapping zero = new 0
after_wrapping (suc k) = (allocate_new_id_with_wrap_around (after_wrapping k)).1

unfoldable pub after_problem : ℕ → Atomic ℕ
after_problem zero = new 0
after_problem (suc k) = (allocate_new_id_with_problem (after_problem k)).1

value-after_wrapping : (k : ℕ) → (after_wrapping k).value ≡ k % modulus
unfolding after_wrapping allocate_new_id_with_wrap_around
value-after_wrapping zero = refl
value-after_wrapping (suc k) = omega (arith, value-after_wrapping k)

value-after_problem : (k : ℕ) → (after_problem k).value ≡ k % modulus
unfolding after_problem allocate_new_id_with_problem
value-after_problem zero = refl
value-after_problem (suc k) = omega (arith, value-after_problem k)

-- Two different calls get different identifiers as long as fewer than 2^32 calls lie between them.
pub wrapping_ids_differ :
    (j d : ℕ)
    → 0 < d
    → d < modulus
    → (allocate_new_id_with_wrap_around (after_wrapping j)).0
      ≢ (allocate_new_id_with_wrap_around (after_wrapping (j + d))).0
unfolding allocate_new_id_with_wrap_around
wrapping_ids_differ j d h h' e = omega (arith, value-after_wrapping j, value-after_wrapping (j + d))

-- The assertion does not keep identifiers unique: the call that comes 2^32 calls after any call
-- that returned gets the same identifier and returns too.
pub problem_ids_repeat :
    (k id : ℕ)
    → (allocate_new_id_with_problem (after_problem k)).0 ≡ some id
    → (allocate_new_id_with_problem (after_problem (k + modulus))).0 ≡ some id
unfolding allocate_new_id_with_problem
problem_ids_repeat k id h = ground (arith, value-after_problem k, value-after_problem (k + modulus))
