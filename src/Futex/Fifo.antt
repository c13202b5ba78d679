-- ===== src/Futex/Fifo.antt =====
-- A futex that wakes the thread that has slept longest. It shows that the documented behaviour can
-- be met, and the tests run on it.
use rust_atomics_and_locks.Base.{
  ℕ, ◌≡◌, refl, ◌||◌, Bool, true, false, List, [], ◌∷◌, ◌++◌, arith, ◌==◌, if◌then◌else◌,
}
use rust_atomics_and_locks.Futex.{Futex, IsFutex}

abbrev among : ℕ → List ℕ → Bool
among j [] = false
among j (i ∷ q) = i == j || among j q

abbrev without : ℕ → List ℕ → List ℕ
without i [] = []
without i (j ∷ q) = if i == j then without i q else j ∷ without i q

abbrev without_first : List ℕ → List ℕ
without_first [] = []
without_first (i ∷ q) = without i q

abbrev pub fifo : Futex
fifo = record {
  Queue = List ℕ;
  nobody = [];
  sleeps = among;
  suspend = λ i q. q ++ i ∷ [];
  leave = without;
  wake_one = without_first;
}

among-append : (i j : ℕ) (q : List ℕ) → among j (q ++ i ∷ []) ≡ (if i == j then true else among j q)
among-append i j [] = ground arith
among-append i j (k ∷ q) = ground (arith, among-append i j q)

among-without :
    (i j : ℕ) (q : List ℕ) → among j (without i q) ≡ (if i == j then false else among j q)
among-without i j [] = ground arith
among-without i j (k ∷ q) = ground (arith, among-without i j q)

among-without_first : (j : ℕ) (q : List ℕ) → among j (without_first q) ≡ true → among j q ≡ true
among-without_first j [] h = h
among-without_first j (i ∷ q) h = ground (arith, among-without i j q)

without_first_wakes :
    (j : ℕ) (q : List ℕ)
    → among j q ≡ true
    → (i : ℕ) × (among i q ≡ true) × (among i (without_first q) ≡ false)
without_first_wakes j [] h = cc
without_first_wakes j (i ∷ q) h = (i, ground arith, ground (arith, among-without i i q))

pub fifo-IsFutex : IsFutex fifo
fifo-IsFutex = record {
  sleeps-nobody = λ j. refl;
  sleeps-suspend = among-append;
  sleeps-leave = among-without;
  wake_one_only = among-without_first;
  wake_one_wakes = without_first_wakes;
}
