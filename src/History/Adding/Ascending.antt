-- ===== src/History/Adding/Ascending.antt =====
-- Lines of values that `X` has in turn, `0`, `f` and 15, for both programs of `Adding`.
use rust_atomics_and_locks.Base.{
  ℕ, zero, suc, ◌≤◌, ◌≡◌, ◌⊎◌, inl, inr, refl, sym, arith, max, Bool-cases, put, ◌==◌, ◌+◌,
}
use rust_atomics_and_locks.History.{Message}
use rust_atomics_and_locks.History.Adding.{
  Reader, loading_a, loading_b, loading_c, loading_d, printed, loaded,
}

-- The value after so many additions.
abbrev pub amount : ℕ → ℕ → ℕ
amount f zero = 0
amount f (suc zero) = f
amount f (suc (suc t)) = 15

abbrev pub IsValue : ℕ → ℕ → Type 0
IsValue f v = (v ≡ 0) ⊎ ((v ≡ f) ⊎ (v ≡ 15))

-- What was loaded are such values, in ascending order, up to `v`.
abbrev pub UpTo : ℕ → ℕ → Reader → Type 0
UpTo f v loading_a = 0 ≤ v
UpTo f v (loading_b a) = IsValue f a × (a ≤ v)
UpTo f v (loading_c a b) = IsValue f a × IsValue f b × (a ≤ b) × (b ≤ v)
UpTo f v (loading_d a b c) = IsValue f a × IsValue f b × IsValue f c × (a ≤ b) × (b ≤ c) × (c ≤ v)
UpTo f v (printed a b c d) =
    IsValue f a × IsValue f b × IsValue f c × IsValue f d × (a ≤ b) × (b ≤ c) × (c ≤ d) × (d ≤ v)

pub UpTo-loaded :
    (f v w : ℕ) (r : Reader) → UpTo f v r → v ≤ w → IsValue f w → UpTo f w (loaded r w)
unfolding loaded
UpTo-loaded f v w loading_a h le is = ground arith
UpTo-loaded f v w (loading_b a) h le is = ground arith
UpTo-loaded f v w (loading_c a b) h le is = ground arith
UpTo-loaded f v w (loading_d a b c) h le is = ground arith
UpTo-loaded f v w (printed a b c d) h le is = ground arith

-- Before the first addition, everything loaded is 0.
UpTo-zero : (f g : ℕ) (r : Reader) → UpTo f 0 r → UpTo g 0 r
UpTo-zero f g loading_a h = ground arith
UpTo-zero f g (loading_b a) h = ground arith
UpTo-zero f g (loading_c a b) h = ground arith
UpTo-zero f g (loading_d a b c) h = ground arith
UpTo-zero f g (printed a b c d) h = ground arith

pub UpTo-none : (f g v : ℕ) (r : Reader) → v ≡ 0 → UpTo f (amount f v) r → UpTo g (amount g v) r
UpTo-none f g zero r e h = UpTo-zero f g r h
UpTo-none f g (suc v) r e h = absurd (omega arith)

pub amount-IsValue : (f t : ℕ) → IsValue f (amount f t)
amount-IsValue f zero = inl refl
amount-IsValue f (suc zero) = inr (inl refl)
amount-IsValue f (suc (suc t)) = inr (inr refl)

pub amount-ascend : (f t u : ℕ) → f ≤ 15 → t ≤ u → amount f t ≤ amount f u
amount-ascend f zero u small le = omega arith
amount-ascend f (suc zero) (suc zero) small le = omega arith
amount-ascend f (suc zero) (suc (suc u)) small le = small
amount-ascend f (suc (suc t)) (suc (suc u)) small le = omega arith
amount-ascend f (suc t) zero small le = absurd (omega arith)
amount-ascend f (suc (suc t)) (suc zero) small le = absurd (omega arith)

pub max_self : (t : ℕ) → max t t ≡ t
max_self t = ground arith

-- A line of such values in ascending order.
abbrev pub IsLine : ℕ → ℕ → ℕ → ℕ → ℕ → Type 0
IsLine f a b c d =
    (a ≤ b) × (b ≤ c) × (c ≤ d) × IsValue f a × IsValue f b × IsValue f c × IsValue f d

pub UpTo-printed :
    (v f a b c d : ℕ) (r : Reader) → r ≡ printed a b c d → UpTo f v r → IsLine f a b c d
UpTo-printed v f a b c d (printed a' b' c' d') e h = ground arith
UpTo-printed v f a b c d loading_a e h = absurd (cc)
UpTo-printed v f a b c d (loading_b a') e h = absurd (cc)
UpTo-printed v f a b c d (loading_c a' b') e h = absurd (cc)
UpTo-printed v f a b c d (loading_d a' b' c') e h = absurd (cc)

-- One more value than `n` of them.
pub put-history :
    (f n : ℕ) (m : ℕ → Message) (new : Message)
    → ((t : ℕ) → t ≤ n → (m t).value ≡ amount f t)
    → new.value ≡ amount f (n + 1)
    → (t : ℕ) → t ≤ n + 1
    → (put m (n + 1) new t).value ≡ amount f t
put-history f n m new old e t le = elim (Bool-cases (n + 1 == t)) [
  | inl at ↦ rw at (let q : n + 1 ≡ t = ground arith in rw (sym q) e)
  | inr at ↦ rw at (old t (ground arith))
]
