-- ===== src/Ids.antt =====
-- Issuing identifiers: examples/02-02-03_issuing-ids.rs and 02-03-01_issuing-ids-without-overflow.rs.
mod Countdown
pub mod Wrapping
pub mod Decrement
pub mod Limited
mod Tests
pub use Countdown.*
