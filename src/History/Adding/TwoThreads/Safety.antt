-- ===== src/History/Adding/TwoThreads/Safety.antt =====
-- What the loading thread of examples/03-04_relaxed-ordering2.rs can print.
use rust_atomics_and_locks.Base.{
  ℕ, zero, suc, ◌+◌, ◌%◌, ◌^◌, ◌≤◌, ◌<◌, ◌≡◌, ◌⊎◌, inl, inr, refl, Bool-cases, List, arith,
  run_invariant,
}
use rust_atomics_and_locks.Memory.{relaxed}
use rust_atomics_and_locks.History.{readable}
use rust_atomics_and_locks.History.Adding.{counter, printed}
use rust_atomics_and_locks.History.Adding.Ascending.{
  amount, UpTo, UpTo-loaded, UpTo-none, put-history, amount-IsValue, amount-ascend, max_self,
  UpTo-printed, IsLine,
}
use rust_atomics_and_locks.History.Adding.TwoThreads.{
  Adder, adding, added, State, Action, add_five, add_ten, look, start, add_next_five, add_next_ten,
  look_at, step, after,
}

abbrev done : Adder → ℕ
done adding = 0
done added = 1

done-le : (x : Adder) → done x ≤ 1
done-le adding = omega arith
done-le added = omega arith

-- `first` is what the first of the two additions adds.
record InvWith (first : ℕ) (s : State) : Type 0 where
  count : s.memory.newest 0 ≡ done s.five + done s.ten
  five_first : done s.ten < done s.five → first ≡ 5
  ten_first : done s.five < done s.ten → first ≡ 10
  history : (t : ℕ) → t ≤ done s.five + done s.ten → (s.memory.message 0 t).value ≡ amount first t
  known : s.reader_known.seen 0 ≤ s.memory.newest 0
  ascending : UpTo first (amount first (s.reader_known.seen 0)) s.reader

abbrev Inv : State → Type 0
Inv s = InvWith 5 s ⊎ InvWith 10 s

start-InvWith : (f : ℕ) → InvWith f start
unfolding start
start-InvWith f = record {
  count = refl;
  five_first = λ h. absurd (omega arith);
  ten_first = λ h. absurd (omega arith);
  history = λ t le. ground arith;
  known = omega arith;
  ascending = omega arith;
}

module _ (f : ℕ) (s : State) (small : f ≤ 15) (inv : InvWith f s) where
  open inv use {count, five_first, ten_first, history, known, ascending}

  look_at-InvWith :
      (t : ℕ) → s.reader_known.seen 0 ≤ t → t ≤ s.memory.newest 0 → InvWith f (look_at t s)
  unfolding look_at
  look_at-InvWith t ge le = record {
    count = count;
    five_first = five_first;
    ten_first = ten_first;
    history = history;
    known = rw (max_self t) le;
    ascending = rw (max_self t) (
        rw (history t (omega (arith, count))) (
          UpTo-loaded f (amount f (s.reader_known.seen 0)) (amount f t) s.reader ascending
            (amount-ascend f (s.reader_known.seen 0) t small ge) (amount-IsValue f t)));
  }

  unstarted_history :
      (g : ℕ)
      → done s.five + done s.ten ≡ 0
      → (t : ℕ) → t ≤ done s.five + done s.ten
      → (s.memory.message 0 t).value ≡ amount g t
  unstarted_history g none zero le = history 0 le
  unstarted_history g none (suc t) le = absurd (omega arith)

  -- Before the first addition, either value can become the first.
  unstarted : (g : ℕ) → done s.five + done s.ten ≡ 0 → InvWith g s
  unstarted g none = record {
    count = count;
    five_first = λ h. absurd (omega arith);
    ten_first = λ h. absurd (omega arith);
    history = λ t le. unstarted_history g none t le;
    known = known;
    ascending =
        UpTo-none f g (s.reader_known.seen 0) s.reader (omega (arith, count, known)) ascending;
  }

  add_five-history :
      (x : Adder)
      → s.ten ≡ x
      → s.five ≡ adding
      → f ≡ 5 ⊎ s.ten ≡ added
      → ((s.memory.message 0 (s.memory.newest 0)).value + 5) % 2 ^ 32
        ≡ amount f (s.memory.newest 0 + 1)
  add_five-history adding e at who = ground (arith, history 0, count)
  add_five-history added e at who = ground (arith, history 1, count, ten_first)

  add_five-InvWith : s.five ≡ adding → f ≡ 5 ⊎ s.ten ≡ added → InvWith f (add_next_five adding s)
  unfolding add_next_five
  add_five-InvWith at who = record {
    count = ground (arith, count);
    five_first = λ h. ground arith;
    ten_first = λ h. absurd (omega (arith, done-le s.ten));
    history = λ t le.
        put-history f (s.memory.newest 0) (s.memory.message 0) _
          (λ u le'. history u (omega (arith, count))) (add_five-history s.ten refl at who) t
          (ground (arith, count));
    known = ground (arith, known);
    ascending = ascending;
  }

  add_ten-history :
      (x : Adder)
      → s.five ≡ x
      → s.ten ≡ adding
      → f ≡ 10 ⊎ s.five ≡ added
      → ((s.memory.message 0 (s.memory.newest 0)).value + 10) % 2 ^ 32
        ≡ amount f (s.memory.newest 0 + 1)
  add_ten-history adding e at who = ground (arith, history 0, count)
  add_ten-history added e at who = ground (arith, history 1, count, five_first)

  add_ten-InvWith : s.ten ≡ adding → f ≡ 10 ⊎ s.five ≡ added → InvWith f (add_next_ten adding s)
  unfolding add_next_ten
  add_ten-InvWith at who = record {
    count = ground (arith, count);
    ten_first = λ h. ground arith;
    five_first = λ h. absurd (omega (arith, done-le s.five));
    history = λ t le.
        put-history f (s.memory.newest 0) (s.memory.message 0) _
          (λ u le'. history u (omega (arith, count))) (add_ten-history s.five refl at who) t
          (ground (arith, count));
    known = ground (arith, known);
    ascending = ascending;
  }

module _ (s : State) (inv : Inv s) where
  become : (g : ℕ) → done s.five + done s.ten ≡ 0 → InvWith g s
  become g none = elim inv [
    | inl i ↦ unstarted 5 s (omega arith) i g none
    | inr i ↦ unstarted 10 s (omega arith) i g none
  ]

  add_five-Inv : (x : Adder) → s.ten ≡ x → s.five ≡ adding → Inv (add_next_five adding s)
  add_five-Inv adding e at =
      inl (add_five-InvWith 5 s (omega arith) (become 5 (ground arith)) at (inl refl))
  add_five-Inv added e at = elim inv [
    | inl i ↦ inl (add_five-InvWith 5 s (omega arith) i at (inr e))
    | inr i ↦ inr (add_five-InvWith 10 s (omega arith) i at (inr e))
  ]

  add_ten-Inv : (x : Adder) → s.five ≡ x → s.ten ≡ adding → Inv (add_next_ten adding s)
  add_ten-Inv adding e at =
      inr (add_ten-InvWith 10 s (omega arith) (become 10 (ground arith)) at (inl refl))
  add_ten-Inv added e at = elim inv [
    | inl i ↦ inl (add_ten-InvWith 5 s (omega arith) i at (inr e))
    | inr i ↦ inr (add_ten-InvWith 10 s (omega arith) i at (inr e))
  ]

  add_next_five-Inv : (x : Adder) → s.five ≡ x → Inv (add_next_five x s)
  unfolding add_next_five
  add_next_five-Inv adding at = add_five-Inv s.ten refl at
  add_next_five-Inv added at = inv

  add_next_ten-Inv : (x : Adder) → s.ten ≡ x → Inv (add_next_ten x s)
  unfolding add_next_ten
  add_next_ten-Inv adding at = add_ten-Inv s.five refl at
  add_next_ten-Inv added at = inv

  look_at-Inv : (t : ℕ) → s.reader_known.seen 0 ≤ t → t ≤ s.memory.newest 0 → Inv (look_at t s)
  look_at-Inv t ge le = elim inv [
    | inl i ↦ inl (look_at-InvWith 5 s (omega arith) i t ge le)
    | inr i ↦ inr (look_at-InvWith 10 s (omega arith) i t ge le)
  ]

step-Inv : (e : Action) (s : State) → Inv s → Inv (step e s)
unfolding step
step-Inv add_five s inv = add_next_five-Inv s inv s.five refl
step-Inv add_ten s inv = add_next_ten-Inv s inv s.ten refl
step-Inv (look t) s inv = elim (Bool-cases (readable relaxed counter t s.memory s.reader_known)) [
  | inl e ↦ rw e (look_at-Inv s inv t (ground arith) (ground arith))
  | inr e ↦ rw e inv
]

after-Inv : (es : List Action) → Inv (after es)
unfolding after
after-Inv es = run_invariant step Inv step-Inv es start (inl (start-InvWith 5))

-- The four values that are printed ascend, and they are all of 0, 5 and 15, or all of 0, 10 and 15:
-- no run prints both 5 and 10.
pub printed_one_order :
    (es : List Action) (a b c d : ℕ)
    → (after es).reader ≡ printed a b c d
    → IsLine 5 a b c d ⊎ IsLine 10 a b c d
printed_one_order es a b c d at = elim (after-Inv es) [
  | inl i ↦ inl (UpTo-printed _ 5 a b c d (after es).reader at i.ascending)
  | inr i ↦ inr (UpTo-printed _ 10 a b c d (after es).reader at i.ascending)
]
