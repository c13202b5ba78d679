-- ===== src/Ids/Countdown.antt =====
-- The identifiers below a number, the newest first.
use rust_atomics_and_locks.Base.{ℕ, zero, suc, ◌^◌, List, [], ◌∷◌}

abbrev pub countdown : ℕ → List ℕ
countdown zero = []
countdown (suc k) = k ∷ countdown k

-- `AtomicU32` wraps here.
abbrev pub modulus : ℕ
modulus = 2 ^ 32
