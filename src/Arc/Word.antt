-- ===== src/Arc/Word.antt =====
-- `usize` on the 64-bit targets that the examples assume.
use rust_atomics_and_locks.Base.{ℕ, ◌-◌, ◌/◌, ◌^◌}

-- One more than `usize::MAX`.
abbrev pub modulus : ℕ
modulus = 2 ^ 64

-- `usize::MAX / 2`
abbrev pub max_half : ℕ
max_half = (modulus - 1) / 2
