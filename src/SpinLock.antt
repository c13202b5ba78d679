-- ===== src/SpinLock.antt =====
-- The implementations of a spin lock, each with the proof that it is a lock, and the loop of
-- examples/07-04-03_experiment.rs that is none.
pub mod Minimum
pub mod Unsafe
pub mod Guarded
pub mod Once
pub mod Corrected
pub mod Experiment
mod Tests
