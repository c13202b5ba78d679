-- ===== src/Arc.antt =====
-- The reference-counted pointers of chapter 6.
pub mod Word
pub mod Basic
pub mod Weak
pub mod Optimized
