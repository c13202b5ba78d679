-- ===== src/History/MessagePassing/Safety.antt =====
-- What examples/03-05_release-acquire-ordering.rs says of its two orderings.
use rust_atomics_and_locks.Base.{
  ℕ, zero, suc, ◌≤◌, ◌<◌, ◌≡◌, refl, inl, inr, Bool-cases, List, arith, run_invariant,
}
use rust_atomics_and_locks.Memory.{relaxed, acquire}
use rust_atomics_and_locks.History.{readable}
use rust_atomics_and_locks.History.MessagePassing.{
  data_cell, ready, Sender, starting, stored, signalled, Main, waiting, reading, printed, State,
  Action, store_data, store_ready, load_ready, load_data, start, set_data, set_ready, test_ready,
  print_data, send_step, main_step, step, after,
}

-- How many of the two locations have been stored to.
abbrev stage : Sender → ℕ
stage starting = 0
stage stored = 1
stage signalled = 2

record Inv (s : State) : Type 0 where
  data_stored : 0 < stage s.sender → (s.memory.newest 0 ≡ 1) × ((s.memory.message 0 1).value ≡ 123)
  data_unstored : stage s.sender ≡ 0 → s.memory.newest 0 ≡ 0
  ready_unset : stage s.sender ≤ 1 → s.memory.newest 1 ≡ 0
  ready_set : stage s.sender ≡ 2 → (s.memory.newest 1 ≡ 1) × ((s.memory.message 1 1).view 0 ≡ 1)
  ready_first : ((s.memory.message 1 0).value ≡ 0) × ((s.memory.message 1 0).view 0 ≡ 0)
  sender_aware : stage s.sender ≡ 1 → s.sender_known.seen 0 ≡ 1
  main_aware : s.main ≡ reading → (s.main_known.seen 0 ≡ 1) × (stage s.sender ≡ 2)
  right : (v : ℕ) → s.main ≡ printed v → v ≡ 123
  bounded : s.main_known.seen 0 ≤ 1

start-Inv : Inv start
unfolding start
start-Inv = record {
  data_stored = λ h. absurd (omega arith);
  data_unstored = λ h. refl;
  ready_unset = λ h. refl;
  ready_set = λ h. absurd (omega arith);
  ready_first = (refl, refl);
  sender_aware = λ h. absurd (omega arith);
  main_aware = λ h. absurd (cc);
  right = λ v h. absurd (cc);
  bounded = omega arith;
}

module _ (s : State) (inv : Inv s) where
  open inv use {
    data_stored, data_unstored, ready_unset, ready_set, ready_first, sender_aware, main_aware,
    right, bounded,
  }

  set_data-Inv : s.sender ≡ starting → Inv (set_data s)
  unfolding set_data
  set_data-Inv at = record {
    data_stored = λ h. ground (arith, data_unstored);
    data_unstored = λ h. absurd (omega arith);
    ready_unset = λ h. ground (arith, ready_unset);
    ready_set = λ h. absurd (omega arith);
    ready_first = ready_first;
    sender_aware = λ h. ground (arith, data_unstored);
    main_aware = λ h. ground (arith, main_aware);
    right = right;
    bounded = bounded;
  }

  set_ready-Inv : s.sender ≡ stored → Inv (set_ready s)
  unfolding set_ready
  set_ready-Inv at = record {
    data_stored = λ h. ground (arith, data_stored);
    data_unstored = λ h. absurd (omega arith);
    ready_unset = λ h. absurd (omega arith);
    ready_set = λ h. ground (arith, ready_unset, sender_aware);
    ready_first = ground (arith, ready_unset, ready_first);
    sender_aware = λ h. absurd (omega arith);
    main_aware = λ h. ground (arith, main_aware);
    right = right;
    bounded = bounded;
  }

  test_ready-Inv : (t : ℕ) → s.main ≡ waiting → t ≤ s.memory.newest 1 → Inv (test_ready t s)
  unfolding test_ready
  test_ready-Inv zero at le = record {
    data_stored = data_stored;
    data_unstored = data_unstored;
    ready_unset = ready_unset;
    ready_set = ready_set;
    ready_first = ready_first;
    sender_aware = sender_aware;
    main_aware = λ h. ground arith;
    right = λ v h. ground arith;
    bounded = ground (arith, ready_first);
  }
  test_ready-Inv (suc zero) at le = record {
    data_stored = data_stored;
    data_unstored = data_unstored;
    ready_unset = ready_unset;
    ready_set = ready_set;
    ready_first = ready_first;
    sender_aware = sender_aware;
    main_aware = λ h. ground (arith, ready_set, ready_unset);
    right = λ v h. ground arith;
    bounded = ground (arith, ready_set, ready_unset);
  }
  test_ready-Inv (suc (suc t)) at le = absurd (ground (arith, ready_set, ready_unset))

  print_data-Inv :
      (t : ℕ)
      → s.main ≡ reading
      → s.main_known.seen 0 ≤ t
      → t ≤ s.memory.newest 0
      → Inv (print_data t s)
  unfolding print_data
  print_data-Inv t at ge le =
      let e : t ≡ 1 = ground (arith, main_aware, data_stored) in
      rw e (record {
        data_stored = data_stored;
        data_unstored = data_unstored;
        ready_unset = ready_unset;
        ready_set = ready_set;
        ready_first = ready_first;
        sender_aware = sender_aware;
        main_aware = λ h. absurd (cc);
        right = λ v h. ground (arith, data_stored, main_aware);
        bounded = omega arith;
      })

  send_step-Inv : (x : Sender) (e : Action) → s.sender ≡ x → Inv (send_step x e s)
  unfolding send_step
  send_step-Inv starting store_data at = set_data-Inv at
  send_step-Inv stored store_ready at = set_ready-Inv at
  send_step-Inv _ _ at = inv

  main_step-Inv : (x : Main) (e : Action) → s.main ≡ x → Inv (main_step x e s)
  unfolding main_step
  main_step-Inv waiting (load_ready t) at =
      elim (Bool-cases (readable acquire ready t s.memory s.main_known)) [
        | inl e ↦ rw e (test_ready-Inv t at (ground arith))
        | inr e ↦ rw e inv
      ]
  main_step-Inv reading (load_data t) at =
      elim (Bool-cases (readable relaxed data_cell t s.memory s.main_known)) [
        | inl e ↦ rw e (print_data-Inv t at (ground arith) (ground arith))
        | inr e ↦ rw e inv
      ]
  main_step-Inv _ _ at = inv

step-Inv : (e : Action) (s : State) → Inv s → Inv (step e s)
unfolding step
step-Inv e s inv =
    let s' = send_step s.sender e s in
    main_step-Inv s' (send_step-Inv s inv s.sender e refl) s'.main e refl

-- However old the values are that the relaxed loads may return, the main thread prints 123.
pub prints_the_data : (es : List Action) (v : ℕ) → (after es).main ≡ printed v → v ≡ 123
unfolding after
prints_the_data es v at = (run_invariant step Inv step-Inv es start start-Inv).right v at
