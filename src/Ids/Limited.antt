-- ===== src/Ids/Limited.antt =====
-- examples/02-03-01_issuing-ids-without-overflow.rs: `allocate_new_id`, called by any number of
-- threads. A call that panics ends its thread.
use native.Mathlib.Numerals.{add-one}
use rust_atomics_and_locks.Base.{
  ==_iff, ℕ, ◌+◌, ◌≤◌, ◌<◌, ◌≡◌, refl, inl, inr, Bool, List, [], ◌∷◌, arith, ltb, ◌==◌,
  if◌then◌else◌, put, run, run_invariant, Bool-cases,
}
use rust_atomics_and_locks.Memory.{relaxed, Atomic, fresh, new, load, compare_exchange_weak}
use rust_atomics_and_locks.Ids.Countdown.{countdown}

-- Between two calls; at the head of the loop with `id`; past the assertion with `id`; panicked.
pub data Pc : Type 0 where
  idle panicked : Pc
  looping trying : (id : ℕ) → Pc

pub record Ids : Type 0 where
  pub next_id : Atomic ℕ
  pub threads : ℕ → Pc
  pub issued : List ℕ

unfoldable pub start : Ids
start = record { next_id = new 0; threads = λ i. idle; issued = [] }

-- `NEXT_ID.load(Relaxed)`
load_id : ℕ → Ids → Ids
load_id i s = record s { threads = put s.threads i (looping (load relaxed s.next_id fresh).0) }

-- `assert!(id < 1000)`
check : ℕ → ℕ → Ids → Ids
check i id s = record s { threads = put s.threads i (if ltb id 1000 then trying id else panicked) }

-- `match NEXT_ID.compare_exchange_weak(id, id + 1, Relaxed, Relaxed)`
exchange : ℕ → Bool → ℕ → Ids → Ids
exchange i spurious id s =
    let r =
      compare_exchange_weak spurious relaxed relaxed (λ v. v == id) (id + 1) s.next_id fresh in
    record s {
      next_id = r.2;
      threads = put s.threads i (if r.0 then idle else looping r.1);
      issued = if r.0 then id ∷ s.issued else s.issued;
    }

perform : ℕ → Bool → Pc → Ids → Ids
unfolding load_id check exchange
perform i spurious idle s = load_id i s
perform i spurious (looping id) s = check i id s
perform i spurious (trying id) s = exchange i spurious id s
perform i spurious panicked s = s

-- The next step of a thread; the Boolean lets a weak exchange fail spuriously.
unfoldable pub step : ℕ × Bool → Ids → Ids
unfolding perform
step (i, spurious) s = perform i spurious (s.threads i) s

unfoldable pub after : List (ℕ × Bool) → Ids
unfolding step start run
after schedule = run step schedule start

record Inv (s : Ids) : Type 0 where
  ordered : s.issued ≡ countdown s.next_id.value
  limited : s.next_id.value ≤ 1000
  checked : (i id : ℕ) → s.threads i ≡ trying id → id < 1000

exchange-Inv :
    (s : Ids) (i : ℕ) (b : Bool) (id : ℕ)
    → s.threads i ≡ trying id
    → Inv s
    → Inv (exchange i b id s)
unfolding exchange
exchange-Inv s i b id at inv = elim (Bool-cases b) [
  | inl fails ↦ rw fails (record {
    ordered = inv.ordered;
    limited = inv.limited;
    checked = λ j k h. ground (arith, inv.checked j k);
  })
  | inr tries ↦ rw tries (elim (Bool-cases (s.next_id.value == id)) [
    | inl same ↦ rw same (record {
      ordered = rw add-one (cc (inv.ordered, (==_iff s.next_id.value id).0 same));
      limited = ground (arith, inv.checked i id at);
      checked = λ j k h. ground (arith, inv.checked j k);
    })
    | inr other ↦ rw other (record {
      ordered = inv.ordered;
      limited = inv.limited;
      checked = λ j k h. ground (arith, inv.checked j k);
    })
  ])
]

perform-Inv :
    (s : Ids) (i : ℕ) (b : Bool) (p : Pc) → s.threads i ≡ p → Inv s → Inv (perform i b p s)
unfolding perform
perform-Inv s i b idle at inv = record {
  ordered = inv.ordered;
  limited = inv.limited;
  checked = λ j k h. ground (arith, inv.checked j k);
}
perform-Inv s i b (looping id) at inv = record {
  ordered = inv.ordered;
  limited = inv.limited;
  checked = λ j k h. ground (arith, inv.checked j k);
}
perform-Inv s i b (trying id) at inv = exchange-Inv s i b id at inv
perform-Inv s i b panicked at inv = inv

step-Inv : (e : ℕ × Bool) (s : Ids) → Inv s → Inv (step e s)
unfolding step
step-Inv (i, b) s inv = perform-Inv s i b (s.threads i) refl inv

start-Inv : Inv start
unfolding start
start-Inv = record { ordered = refl; limited = omega arith; checked = λ i id h. absurd (cc) }

after-Inv : (schedule : List (ℕ × Bool)) → Inv (after schedule)
unfolding after
after-Inv schedule = run_invariant step Inv step-Inv schedule start start-Inv

-- Whatever the number of threads, the identifiers returned are 0, 1, 2 and so on in this order, so
-- none is returned twice; there is one for each increment of the counter, which never passes 1000.
pub limited_ids_unique :
    (schedule : List (ℕ × Bool))
    → ((after schedule).issued ≡ countdown (after schedule).next_id.value)
      × ((after schedule).next_id.value ≤ 1000)
limited_ids_unique schedule = ((after-Inv schedule).ordered, (after-Inv schedule).limited)
