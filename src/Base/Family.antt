-- ===== src/Base/Family.antt =====
-- What each thread has is a family over ℕ. Replacing one member, and sums over the threads below n.
use Prim.Native.Nat.{ℕ, zero, suc, ◌+◌, ◌≤◌, ◌<◌}
use mathlib.Core.Path.{◌≡◌, refl}
use mathlib.Core.Logic.{◌≢◌, inl, inr}
use native.Mathlib.Omega.{arith}
use rust_atomics_and_locks.Base.Tests.{◌==◌, if◌then◌else◌, Bool-cases, ==_iff}

-- The family with the member of thread `i` replaced.
abbrev pub put {ℓ} : {A : Type ℓ} → (ℕ → A) → ℕ → A → ℕ → A
put f i a j = if i == j then a else f j

pub put_self {ℓ} : {A : Type ℓ} (f : ℕ → A) (i : ℕ) (a : A) → put f i a i ≡ a
put_self f i a = rw ((==_iff i i).1 refl)

-- The sum of `weigh` over the threads below `n`.
module _ {ℓ} {A : Type ℓ} (weigh : A → ℕ) where
  unfoldable pub sum : ℕ → (ℕ → A) → ℕ
  sum zero f = 0
  sum (suc n) f = weigh (f n) + sum n f

  sum-put_outside : (n i : ℕ) (f : ℕ → A) (a : A) → n ≤ i → sum n (put f i a) ≡ sum n f
  unfolding sum
  sum-put_outside zero i f a h = refl
  sum-put_outside (suc n) i f a h = ground (arith, sum-put_outside n i f a)

  -- What replacing one member does to the sum.
  pub sum-put :
      (n i : ℕ) (f : ℕ → A) (a : A) → i < n → sum n (put f i a) + weigh (f i) ≡ sum n f + weigh a
  unfolding sum
  sum-put zero i f a h = elim h [ ]
  sum-put (suc n) i f a h = elim (Bool-cases (i == n)) [
    | inl e ↦ ground (arith, sum-put_outside n i f a)
    | inr e ↦ ground (arith, sum-put n i f a)
  ]

  pub weigh-le-sum : (n i : ℕ) (f : ℕ → A) → i < n → weigh (f i) ≤ sum n f
  unfolding sum
  weigh-le-sum zero i f h = elim h [ ]
  weigh-le-sum (suc n) i f h = elim (Bool-cases (i == n)) [
    | inl e ↦ ground arith
    | inr e ↦ ground (arith, weigh-le-sum n i f)
  ]

  pub pair-le-sum :
      (n i j : ℕ) (f : ℕ → A) → i < n → j < n → i ≢ j → weigh (f i) + weigh (f j) ≤ sum n f
  unfolding sum
  pair-le-sum zero i j f h h' apart = elim h [ ]
  pair-le-sum (suc n) i j f h h' apart = elim (Bool-cases (i == n)) [
    | inl e ↦ ground (arith, weigh-le-sum n j f)
    | inr e ↦ elim (Bool-cases (j == n)) [
      | inl e' ↦ ground (arith, weigh-le-sum n i f)
      | inr e' ↦ ground (arith, pair-le-sum n i j f)
    ]
  ]

  -- A sum that is not zero has a summand that is not.
  pub sum-pos : (n : ℕ) (f : ℕ → A) → 0 < sum n f → (i : ℕ) × (i < n) × (0 < weigh (f i))
  unfolding sum
  sum-pos zero f h = absurd (omega arith)
  sum-pos (suc n) f h = elim (Bool-cases (weigh (f n) == 0)) [
    | inr e ↦ (n, omega arith, ground arith)
    | inl e ↦ let (i, l, p) = sum-pos n f (ground arith) in (i, omega (arith, l), p)
  ]

  -- A sum of numbers that are zero.
  pub sum-eq-zero : (n : ℕ) (f : ℕ → A) → ((i : ℕ) → i < n → weigh (f i) ≡ 0) → sum n f ≡ 0
  unfolding sum
  sum-eq-zero zero f h = refl
  sum-eq-zero (suc n) f h =
      omega (arith, h n (omega arith), sum-eq-zero n f (λ i l. h i (omega arith)))

  -- A sum in which only the first number is not zero.
  pub sum-first :
      (n : ℕ) (f : ℕ → A) → ((i : ℕ) → weigh (f (suc i)) ≡ 0) → sum (suc n) f ≡ weigh (f zero)
  unfolding sum
  sum-first zero f h = omega arith
  sum-first (suc n) f h = omega (arith, h n, sum-first n f h)

-- Each summand of the threads below `n` is at most the other.
pub sum-le {ℓ} :
    {A : Type ℓ} (v w : A → ℕ) (n : ℕ) (f : ℕ → A)
    → ((i : ℕ) → i < n → v (f i) ≤ w (f i))
    → sum v n f ≤ sum w n f
unfolding sum
sum-le v w zero f h = omega arith
sum-le v w (suc n) f h = omega (arith, h n (omega arith), sum-le v w n f (λ i l. h i (omega arith)))

-- Each summand exceeds the other by one at most.
pub sum-le-add {ℓ} :
    {A : Type ℓ} (v w : A → ℕ) (n : ℕ) (f : ℕ → A)
    → ((a : A) → v a ≤ w a + 1)
    → sum v n f ≤ sum w n f + n
unfolding sum
sum-le-add v w zero f h = omega arith
sum-le-add v w (suc n) f h = omega (arith, h (f n), sum-le-add v w n f h)
