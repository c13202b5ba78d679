-- ===== src/History/Fence/Safety.antt =====
-- What the fence of examples/03-08_fence.rs gives.
use rust_atomics_and_locks.Base.{
  ℕ, ◌+◌, ◌≤◌, ◌<◌, ◌≡◌, refl, inl, inr, Bool-cases, true, ◌&&◌, List, [], ◌∷◌, arith, ◌==◌, ltb,
  run_invariant,
}
use rust_atomics_and_locks.Memory.{relaxed}
use rust_atomics_and_locks.History.{readable}
use rust_atomics_and_locks.History.Fence.{
  some_calculation, Stage, calculating, written, Main, loading, printing, finished, State, Action,
  write, set_ready, load_ready, check, print, start, write_data, set_flag, load_flag, check_ready,
  can_print, print_data, thread_step, main_step, actor, step, after,
}
use rust_atomics_and_locks.History.Fence.Threads.{
  ThreadInv, write_data-ThreadInv, set_flag-ThreadInv, load_flag-ThreadInv, check_ready-ThreadInv,
  print_data-ThreadInv, finish-ThreadInv, newest_le_one,
}

-- Each printed pair is of a thread and its result.
abbrev pub AllRight : List (ℕ × ℕ) → Type 0
unfolding some_calculation
AllRight [] = Unit {0}
AllRight ((i, v) ∷ l) = (v ≡ some_calculation i) × AllRight l

record Inv (s : State) : Type 0 where
  each : (j : ℕ) → j < 10 → ThreadInv j s
  right : AllRight s.printed

start-Inv : Inv start
unfolding start AllRight
start-Inv = record {
  each = λ j lt. record {
    unwritten = λ at. refl;
    data_newest = λ at. absurd (at refl);
    data_right = λ at. absurd (at refl);
    unset = λ at. refl;
    flag_newest = λ at. absurd (cc);
    flag_view = λ at. absurd (cc);
    flag_first = refl;
    writer_aware = λ at. absurd (cc);
    found = λ at. absurd (cc);
    found_view = λ at. absurd (cc);
    fenced = λ at is. absurd (cc);
  };
  right = tt;
}

-- What main prints of a thread whose flag it found set is that thread's result, and not a race.
result_known :
    (s : State) (i : ℕ)
    → ThreadInv i s
    → s.main ≡ printing i
    → s.ready i ≡ true
    → (s.memory.newest i ≤ s.main_known.seen i)
      × ((s.memory.message i (s.memory.newest i)).value ≡ some_calculation i)
result_known s i inv at is =
    let e : s.memory.newest i ≡ 1 = ground (arith, inv.data_newest, inv.found) in
    rw e (ground (arith, inv.fenced), ground (arith, inv.data_right, inv.found))

check_ready_prints : (s : State) → (check_ready s).printed ≡ s.printed
unfolding check_ready
check_ready_prints s = ground arith

module _ (s : State) (inv : Inv s) where
  open inv use {each, right}

  print_data-AllRight :
      (i t : ℕ)
      → i < 10
      → s.main ≡ printing i
      → (s.ready i ≡ true → (s.main_known.seen i ≤ t) × (t ≤ s.memory.newest i))
      → AllRight (print_data i t s).printed
  unfolding print_data AllRight
  print_data-AllRight i t lt at found = elim (Bool-cases (s.ready i)) [
    | inl e ↦
        let (knows, is) = result_known s i (each i lt) at e in
        let newest : s.memory.newest i ≡ t = omega (arith, knows, found e) in
        rw e ((rw newest at is), right)
    | inr e ↦ rw e right
  ]

  can_print_lem :
      (i t : ℕ)
      → can_print i t s ≡ true
      → s.ready i ≡ true
      → (s.main_known.seen i ≤ t) × (t ≤ s.memory.newest i)
  unfolding can_print
  can_print_lem i t e is = ground arith

  thread_step-Inv :
      (x : Stage) (i : ℕ) (e : Action)
      → i < 10
      → (s.threads i).stage ≡ x
      → Inv (thread_step x i e s)
  unfolding thread_step write_data set_flag
  thread_step-Inv calculating i (write j) lt at = elim (Bool-cases (i == j)) [
    | inl e ↦
        rw e (record { each = λ k l. write_data-ThreadInv s k l (each k l) i lt at; right = right })
    | inr e ↦ rw e inv
  ]
  thread_step-Inv written i (set_ready j) lt at = elim (Bool-cases (i == j)) [
    | inl e ↦
        rw e (record { each = λ k l. set_flag-ThreadInv s k l (each k l) i lt at; right = right })
    | inr e ↦ rw e inv
  ]
  thread_step-Inv _ _ _ lt at = inv

  load_flag-Inv :
      (i t : ℕ) → i < 10 → s.main ≡ loading i → t ≤ s.memory.newest (10 + i) → Inv (load_flag i t s)
  unfolding load_flag
  load_flag-Inv i t lt at le = record {
    each =
        λ k l. load_flag-ThreadInv s k l (each k l) i t lt at le (newest_le_one s i lt (each i lt));
    right = right;
  }

  print_data-Inv :
      (i t : ℕ) → i < 10 → s.main ≡ printing i → can_print i t s ≡ true → Inv (print_data i t s)
  print_data-Inv i t lt at can = record {
    each =
        λ k l. print_data-ThreadInv s k l (each k l) i t lt at (λ e. (can_print_lem i t can e).0);
    right = print_data-AllRight i t lt at (can_print_lem i t can);
  }

  check_ready-Inv : (i : ℕ) → s.main ≡ loading i → Inv (check_ready s)
  check_ready-Inv i at = record {
    each = λ k l. check_ready-ThreadInv s k l (each k l) i at;
    right = rw (check_ready_prints s) right;
  }

  finish-Inv : Inv (record s { main = finished })
  finish-Inv = record { each = λ k l. finish-ThreadInv s k l (each k l); right = right }

  main_step-Inv : (x : Main) (e : Action) → s.main ≡ x → Inv (main_step x e s)
  unfolding main_step
  main_step-Inv (loading i) (load_ready t) at =
      elim (Bool-cases (ltb i 10 && readable relaxed (10 + i) t s.memory s.main_known)) [
        | inl e ↦ rw e (load_flag-Inv i t (ground arith) at (ground arith))
        | inr e ↦ rw e inv
      ]
  main_step-Inv (loading i) check at = elim (Bool-cases (ltb i 10)) [
    | inl e ↦ rw e inv
    | inr e ↦ rw e (check_ready-Inv i at)
  ]
  main_step-Inv (printing i) (print t) at = elim (Bool-cases (ltb i 10)) [
    | inl e ↦ elim (Bool-cases (can_print i t s)) [
      | inl c ↦ rw e (rw c (print_data-Inv i t (ground arith) at c))
      | inr c ↦ rw e (rw c inv)
    ]
    | inr e ↦ rw e finish-Inv
  ]
  main_step-Inv _ _ at = inv

step-Inv : (e : Action) (s : State) → Inv s → Inv (step e s)
unfolding step
step-Inv e s inv = elim (Bool-cases (ltb (actor e) 10)) [
  | inl q ↦ rw q (thread_step-Inv s inv (s.threads (actor e)).stage (actor e) e (ground arith) refl)
  | inr q ↦ rw q (main_step-Inv s inv s.main e refl)
]

after-Inv : (es : List Action) → Inv (after es)
unfolding after
after-Inv es = run_invariant step Inv step-Inv es start start-Inv

-- Whatever stores its loads and its plain reads find, everything that main has printed is a thread's
-- number with that thread's result.
pub prints_results : (es : List Action) → AllRight (after es).printed
prints_results es = (after-Inv es).right

-- When main is to print `DATA[i]`, for an `i` that it found ready, it knows of the newest write to
-- it: the plain read does not race with thread `i`.
pub fenced_read_race_free :
    (es : List Action) (i : ℕ)
    → i < 10
    → (after es).main ≡ printing i
    → (after es).ready i ≡ true
    → (after es).memory.newest i ≤ (after es).main_known.seen i
fenced_read_race_free es i lt at is = (result_known (after es) i ((after-Inv es).each i lt) at is).0
