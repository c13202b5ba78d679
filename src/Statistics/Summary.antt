-- ===== src/Statistics/Summary.antt =====
-- The statistics of a list of times, by which both programs are judged.
use rust_atomics_and_locks.Base.{ℕ, ◌+◌, ◌%◌, ◌<◌, ◌≡◌, List, [], ◌∷◌, max, length, arith}
use rust_atomics_and_locks.Statistics.{modulus}

unfoldable pub total : List ℕ → ℕ
total [] = 0
total (t ∷ ts) = total ts + t

unfoldable pub peak : List ℕ → ℕ
peak [] = 0
peak (t ∷ ts) = max (peak ts) t

-- Is this their number, their sum in 64 bits and their maximum?
abbrev pub IsSummary : ℕ → ℕ → ℕ → List ℕ → Type 0
IsSummary n sum_of largest ts =
    (n ≡ length ts) × (sum_of ≡ total ts % modulus) × (largest ≡ peak ts)

pub IsSummary-cons :
    (n s m t : ℕ) (ts : List ℕ)
    → IsSummary n s m ts
    → n + 1 < modulus
    → IsSummary ((n + 1) % modulus) ((s + t) % modulus) (max m t) (t ∷ ts)
unfolding total peak
IsSummary-cons n s m t ts (a, b, c) small =
    (ground (arith, a), ground (arith, b), ground (arith, c))
