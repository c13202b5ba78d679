-- ===== src/Ids/Decrement.antt =====
-- examples/02-02-03_issuing-ids.rs: `allocate_new_id_with_decrement`, called by `n` threads. A call
-- that panics ends its thread.
use rust_atomics_and_locks.Base.{
  ℕ, ◌+◌, ◌≤◌, ◌<◌, ◌≡◌, refl, inl, inr, List, [], ◌∷◌, arith, leb, ltb, if◌then◌else◌, put, sum,
  sum-put, sum-le-add, sum-eq-zero, run, run_invariant, length, Bool-cases,
}
use rust_atomics_and_locks.Memory.{relaxed, Atomic, fresh, new, fetch_add, fetch_sub}
use rust_atomics_and_locks.Ids.Countdown.{countdown, modulus}

-- Between two calls; past a `fetch_add` that found too large a value; panicked.
pub data Pc : Type 0 where
  idle overflowing panicked : Pc

-- `issued` holds the identifiers returned, the newest first. It is not in the source.
pub record Ids : Type 0 where
  pub next_id : Atomic ℕ
  pub threads : ℕ → Pc
  pub issued : List ℕ

unfoldable pub start : Ids
start = record { next_id = new 0; threads = λ i. idle; issued = [] }

-- `let id = NEXT_ID.fetch_add(1, Relaxed); if 10 <= id { ... } id`
add : ℕ → Ids → Ids
add i s =
    let r = fetch_add modulus relaxed 1 s.next_id fresh in
    record s {
      next_id = r.1;
      threads = put s.threads i (if leb 10 r.0 then overflowing else idle);
      issued = if leb 10 r.0 then s.issued else r.0 ∷ s.issued;
    }

-- `NEXT_ID.fetch_sub(1, Relaxed); panic!(...)`
subtract : ℕ → Ids → Ids
subtract i s = record s {
  next_id = (fetch_sub modulus relaxed 1 s.next_id fresh).1;
  threads = put s.threads i panicked;
}

perform : ℕ → Pc → Ids → Ids
unfolding add subtract
perform i idle s = add i s
perform i overflowing s = subtract i s
perform i panicked s = s

-- The next step of thread `i`.
pub step : ℕ → ℕ → Ids → Ids
unfolding perform
step n i s = if ltb i n then perform i (s.threads i) s else s

-- The counter and the threads after a schedule.
unfoldable pub after : ℕ → List ℕ → Ids
unfolding step start run
after n schedule = run (step n) schedule start

abbrev pub extra : Pc → ℕ
extra overflowing = 1
extra _ = 0

record Inv (n : ℕ) (s : Ids) : Type 0 where
  ordered : s.issued ≡ countdown (length s.issued)
  few : length s.issued ≤ 10
  full : 0 < sum extra n s.threads → length s.issued ≡ 10
  exact : s.next_id.value ≡ length s.issued + sum extra n s.threads

extra-le : (n : ℕ) (f : ℕ → Pc) → sum extra n f ≤ n
extra-le n f =
    omega (arith, sum-le-add extra (λ p. 0) n f small, sum-eq-zero (λ p. 0) n f (λ i l. refl))
  where
    small : (p : Pc) → extra p ≤ 0 + 1
    small idle = omega arith
    small overflowing = omega arith
    small panicked = omega arith

module _ (n : ℕ) (bound : n + 10 < modulus) where
  add-Inv : (s : Ids) (i : ℕ) → i < n → s.threads i ≡ idle → Inv n s → Inv n (add i s)
  unfolding add
  add-Inv s i lt at inv = elim (Bool-cases (leb 10 s.next_id.value)) [
    | inl big ↦ rw big (record {
      ordered = inv.ordered;
      few = inv.few;
      full = λ h. ground (arith, inv.few, inv.full, inv.exact);
      exact = ground (
        arith,
        inv.few,
        inv.exact,
        extra-le n (put s.threads i overflowing),
        sum-put extra n i s.threads overflowing lt,
      );
    })
    | inr small ↦ rw small (record {
      ordered = cc (inv.ordered, counted s inv (ground arith));
      few = ground (arith, inv.few, inv.exact, inv.full);
      full = λ h. ground (arith, inv.full, inv.exact, sum-put extra n i s.threads idle lt);
      exact = ground (arith, inv.exact, sum-put extra n i s.threads idle lt);
    })
  ]
    where
      counted : (s : Ids) → Inv n s → s.next_id.value < 10 → s.next_id.value ≡ length s.issued
      counted s inv h = ground (arith, inv.full, inv.exact)

  subtract-Inv :
      (s : Ids) (i : ℕ) → i < n → s.threads i ≡ overflowing → Inv n s → Inv n (subtract i s)
  unfolding subtract
  subtract-Inv s i lt at inv = record {
    ordered = inv.ordered;
    few = inv.few;
    full = λ h. ground (arith, inv.full, sum-put extra n i s.threads panicked lt);
    exact =
        ground (
          arith,
          inv.few,
          inv.exact,
          extra-le n s.threads,
          sum-put extra n i s.threads panicked lt,
        );
  }

  perform-Inv :
      (s : Ids) (i : ℕ) (p : Pc) → i < n → s.threads i ≡ p → Inv n s → Inv n (perform i p s)
  unfolding perform
  perform-Inv s i idle lt at inv = add-Inv s i lt at inv
  perform-Inv s i overflowing lt at inv = subtract-Inv s i lt at inv
  perform-Inv s i panicked lt at inv = inv

  step-Inv : (i : ℕ) (s : Ids) → Inv n s → Inv n (step n i s)
  unfolding step
  step-Inv i s inv = elim (Bool-cases (ltb i n)) [
    | inl below ↦ rw below (perform-Inv s i (s.threads i) (ground arith) refl inv)
    | inr beyond ↦ rw beyond inv
  ]

  start-Inv : Inv n start
  unfolding start
  start-Inv = record {
    ordered = refl;
    few = omega arith;
    full = λ h. absurd (omega (arith, none));
    exact = omega (arith, none);
  }
    where
      none : sum extra n (λ i. idle) ≡ 0
      none = sum-eq-zero extra n (λ i. idle) (λ i l. refl)

  after-Inv : (schedule : List ℕ) → Inv n (after n schedule)
  unfolding after
  after-Inv schedule = run_invariant (step n) (Inv n) step-Inv schedule start start-Inv

  -- With fewer than 2^32 - 10 threads, the identifiers returned are 0, 1, 2 and so on in this
  -- order, at most ten of them, so none is returned twice. The counter is their number with one
  -- for each thread that has yet to take its addition back, so that it has never wrapped.
  pub decrement_ids_unique :
      (schedule : List ℕ)
      → ((after n schedule).issued ≡ countdown (length (after n schedule).issued))
        × (length (after n schedule).issued ≤ 10)
        × ((after n schedule).next_id.value
            ≡ length (after n schedule).issued + sum extra n (after n schedule).threads)
  decrement_ids_unique schedule =
      ((after-Inv schedule).ordered, (after-Inv schedule).few, (after-Inv schedule).exact)
