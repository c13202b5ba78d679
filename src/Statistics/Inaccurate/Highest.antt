-- ===== src/Statistics/Inaccurate/Highest.antt =====
-- The highest weight among the threads below `n`.
use rust_atomics_and_locks.Base.{
  ℕ, zero, suc, ◌≤◌, ◌<◌, ◌≡◌, refl, inl, inr, arith, max, put, ◌==◌, Bool-cases,
}

module _ {A : Type 0} (weigh : A → ℕ) where
  unfoldable pub highest : ℕ → (ℕ → A) → ℕ
  highest zero f = 0
  highest (suc n) f = max (weigh (f n)) (highest n f)

  highest-put_outside : (n i : ℕ) (f : ℕ → A) (a : A) → n ≤ i → highest n (put f i a) ≡ highest n f
  unfolding highest
  highest-put_outside zero i f a h = refl
  highest-put_outside (suc n) i f a h = ground (arith, highest-put_outside n i f a)

  -- Replacing one member leaves the highest of the others, `rest`.
  pub highest-put :
      (n i : ℕ) (f : ℕ → A) (a : A)
      → i < n
      → (rest : ℕ) × (highest n f ≡ max (weigh (f i)) rest)
        × (highest n (put f i a) ≡ max (weigh a) rest)
  unfolding highest
  highest-put zero i f a h = elim h [ ]
  highest-put (suc n) i f a h = elim (Bool-cases (i == n)) [
    | inl e ↦ (highest n f, ground arith, ground (arith, highest-put_outside n i f a))
    | inr e ↦
        let (rest, was, is) = highest-put n i f a (ground arith) in
        (max (weigh (f n)) rest, ground arith, ground arith)
  ]

  pub highest-zero : (n : ℕ) (f : ℕ → A) → ((i : ℕ) → i < n → weigh (f i) ≡ 0) → highest n f ≡ 0
  unfolding highest
  highest-zero zero f h = refl
  highest-zero (suc n) f h =
      ground (arith, h n (omega arith), highest-zero n f (λ i l. h i (omega arith)))
