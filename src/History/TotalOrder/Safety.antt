-- ===== src/History/TotalOrder/Safety.antt =====
-- What examples/03-07_sequentially-consistent.rs says of its ordering.
use rust_atomics_and_locks.Base.{
  ℕ, zero, suc, ◌+◌, ◌-◌, ◌≤◌, ◌<◌, ◌≡◌, ◌≢◌, refl, inl, inr, Bool-cases, List, arith, ltb,
  run_invariant,
}
use rust_atomics_and_locks.Memory.{seq_cst}
use rust_atomics_and_locks.History.{readable}
use rust_atomics_and_locks.History.TotalOrder.{
  Pc, starting, stored, entered, pushed, State, Action, set, push, test, start, set_flag,
  test_other, push_mark, perform, step, after,
}

-- Has the thread decided to push?
abbrev pub in_body : Pc → ℕ
in_body entered = 1
in_body pushed = 1
in_body _ = 0

abbrev has_pushed : Pc → ℕ
has_pushed pushed = 1
has_pushed _ = 0

record Inv (s : State) : Type 0 where
  unset :
      (i : ℕ)
      → i < 2
      → (s.threads i).pc ≡ starting
      → (s.memory.newest i ≡ 0) × (s.memory.total i ≡ 0)
  is_set :
      (i : ℕ)
      → i < 2
      → (s.threads i).pc ≢ starting
      → (s.memory.newest i ≡ 1) × (s.memory.total i ≡ 1) × ((s.memory.message i 1).value ≡ 1)
  one : in_body (s.threads 0).pc + in_body (s.threads 1).pc ≤ 1
  counted : s.length ≡ has_pushed (s.threads 0).pc + has_pushed (s.threads 1).pc

start-Inv : Inv start
unfolding start
start-Inv = record {
  unset = λ i l h. (refl, refl);
  is_set = λ i l h. absurd (h refl);
  one = omega arith;
  counted = refl;
}

module _ (s : State) (inv : Inv s) where
  open inv use {unset, is_set, one, counted}

  set_flag-Inv : (i : ℕ) → i < 2 → (s.threads i).pc ≡ starting → Inv (set_flag i s)
  unfolding set_flag
  set_flag-Inv i lt at = record {
    unset = λ j l h. ground (arith, unset j);
    is_set = λ j l h. ground (arith, is_set j, unset i);
    one = ground arith;
    counted = ground arith;
  }

  push_mark-Inv : (i : ℕ) → i < 2 → (s.threads i).pc ≡ entered → Inv (push_mark i s)
  unfolding push_mark
  push_mark-Inv i lt at = record {
    unset = λ j l h. ground (arith, unset j);
    is_set = λ j l h. ground (arith, is_set j, is_set i);
    one = ground arith;
    counted = ground arith;
  }

  -- A load of a flag that is set finds it so.
  finds_set :
      (j t : ℕ)
      → j < 2
      → in_body (s.threads j).pc ≡ 1
      → t ≤ s.memory.newest j
      → s.memory.total j ≤ t
      → (s.memory.message j t).value ≡ 1
  finds_set j t lt body le ge =
      let set_one : t ≡ 1 = ground (arith, is_set j lt) in rw set_one (ground (arith, is_set j lt))

  one_at_most :
      (i t : ℕ)
      → i < 2
      → (s.threads i).pc ≡ stored
      → t ≤ s.memory.newest (1 - i)
      → s.memory.total (1 - i) ≤ t
      → in_body ((test_other i t s).threads 0).pc + in_body ((test_other i t s).threads 1).pc ≤ 1
  unfolding test_other
  one_at_most zero t lt at le ge = ground (arith, finds_set 1 t)
  one_at_most (suc zero) t lt at le ge = ground (arith, finds_set 0 t)
  one_at_most (suc (suc i)) t lt at le ge = absurd (omega arith)

  test_other-Inv :
      (i t : ℕ)
      → i < 2
      → (s.threads i).pc ≡ stored
      → t ≤ s.memory.newest (1 - i)
      → s.memory.total (1 - i) ≤ t
      → Inv (test_other i t s)
  unfolding test_other
  test_other-Inv i t lt at le ge = record {
    unset = λ j l h. ground (arith, unset j);
    is_set = λ j l h. ground (arith, is_set j, is_set i);
    one = one_at_most i t lt at le ge;
    counted = ground arith;
  }

  perform-Inv :
      (i : ℕ) → i < 2 → (p : Pc) (e : Action) → (s.threads i).pc ≡ p → Inv (perform i p e s)
  unfolding perform
  perform-Inv i lt starting set at = set_flag-Inv i lt at
  perform-Inv i lt stored (test t) at =
      elim (Bool-cases (readable seq_cst (1 - i) t s.memory (s.threads i).known)) [
        | inl e ↦ rw e (test_other-Inv i t lt at (ground arith) (ground arith))
        | inr e ↦ rw e inv
      ]
  perform-Inv i lt entered push at = push_mark-Inv i lt at
  perform-Inv i lt _ _ at = inv

step-Inv : (e : ℕ × Action) (s : State) → Inv s → Inv (step e s)
unfolding step
step-Inv (i, e) s inv = elim (Bool-cases (ltb i 2)) [
  | inl h ↦ rw h (perform-Inv s inv i (ground arith) (s.threads i).pc e refl)
  | inr h ↦ rw h inv
]

-- At most one of the two threads decides to push, so that `S` is not pushed to by both, and at most
-- once.
pub one_pushes :
    (es : List (ℕ × Action))
    → (in_body ((after es).threads 0).pc + in_body ((after es).threads 1).pc ≤ 1)
      × ((after es).length ≤ 1)
unfolding after
one_pushes es =
    let inv = run_invariant step Inv step-Inv es start start-Inv in
    (inv.one, ground (arith, inv.one, inv.counted))
