-- ===== src/History/Adding/OneThread/Safety.antt =====
-- What the thread of examples/03-04_relaxed-ordering.rs can print.
use rust_atomics_and_locks.Base.{
  ℕ, zero, suc, ◌≤◌, ◌≡◌, inl, inr, refl, Bool-cases, List, arith, run_invariant,
}
use rust_atomics_and_locks.Memory.{relaxed}
use rust_atomics_and_locks.History.{readable}
use rust_atomics_and_locks.History.Adding.{counter, printed}
use rust_atomics_and_locks.History.Adding.Ascending.{
  amount, UpTo, UpTo-loaded, amount-IsValue, amount-ascend, max_self, UpTo-printed, IsLine,
}
use rust_atomics_and_locks.History.Adding.OneThread.{
  Adder, adding_five, adding_ten, added, State, Action, add, look, start, add_value, add_next,
  look_at, step, after,
}

abbrev done : Adder → ℕ
done adding_five = 0
done adding_ten = 1
done added = 2

record Inv (s : State) : Type 0 where
  count : s.memory.newest 0 ≡ done s.adder
  history : (t : ℕ) → t ≤ done s.adder → (s.memory.message 0 t).value ≡ amount 5 t
  known : s.reader_known.seen 0 ≤ s.memory.newest 0
  ascending : UpTo 5 (amount 5 (s.reader_known.seen 0)) s.reader

start-Inv : Inv start
unfolding start
start-Inv = record {
  count = refl;
  history = λ t le. ground arith;
  known = omega arith;
  ascending = omega arith;
}

module _ (s : State) (inv : Inv s) where
  open inv use {count, history, known, ascending}

  look_at-Inv : (t : ℕ) → s.reader_known.seen 0 ≤ t → t ≤ s.memory.newest 0 → Inv (look_at t s)
  unfolding look_at
  look_at-Inv t ge le = record {
    count = count;
    history = history;
    known = rw (max_self t) le;
    ascending = rw (max_self t) (
        rw (history t (omega (arith, count))) (
          UpTo-loaded 5 (amount 5 (s.reader_known.seen 0)) (amount 5 t) s.reader ascending
            (amount-ascend 5 (s.reader_known.seen 0) t (omega arith) ge) (amount-IsValue 5 t)));
  }

  add_next-history :
      (x : Adder)
      → s.adder ≡ x
      → (t : ℕ) → t ≤ done (add_next x s).adder
      → ((add_next x s).memory.message 0 t).value ≡ amount 5 t
  unfolding add_next add_value
  add_next-history adding_five at zero le = ground (arith, history 0, count)
  add_next-history adding_five at (suc zero) le = ground (arith, history 0, count)
  add_next-history adding_five at (suc (suc t)) le = absurd (omega arith)
  add_next-history adding_ten at zero le = ground (arith, history 0, count)
  add_next-history adding_ten at (suc zero) le = ground (arith, history 1, count)
  add_next-history adding_ten at (suc (suc zero)) le = ground (arith, history 1, count)
  add_next-history adding_ten at (suc (suc (suc t))) le = absurd (omega arith)
  add_next-history added at t le = history t le

  add_next-Inv : (x : Adder) → s.adder ≡ x → Inv (add_next x s)
  unfolding add_next add_value
  add_next-Inv adding_five at = record {
    count = ground (arith, count);
    history = add_next-history adding_five at;
    known = ground (arith, known);
    ascending = ascending;
  }
  add_next-Inv adding_ten at = record {
    count = ground (arith, count);
    history = add_next-history adding_ten at;
    known = ground (arith, known);
    ascending = ascending;
  }
  add_next-Inv added at = inv

step-Inv : (e : Action) (s : State) → Inv s → Inv (step e s)
unfolding step
step-Inv add s inv = add_next-Inv s inv s.adder refl
step-Inv (look t) s inv = elim (Bool-cases (readable relaxed counter t s.memory s.reader_known)) [
  | inl e ↦ rw e (look_at-Inv s inv t (ground arith) (ground arith))
  | inr e ↦ rw e inv
]

after-Inv : (es : List Action) → Inv (after es)
unfolding after
after-Inv es = run_invariant step Inv step-Inv es start start-Inv

-- However the loads and the additions interleave, and however old the values are that the loads
-- return, the four values that are printed ascend, and each is 0, 5 or 15.
pub printed_ascend :
    (es : List Action) (a b c d : ℕ) → (after es).reader ≡ printed a b c d → IsLine 5 a b c d
printed_ascend es a b c d at =
    UpTo-printed _ 5 a b c d (after es).reader at (after-Inv es).ascending
