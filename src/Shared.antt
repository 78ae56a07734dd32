-- ===== src/Shared.antt =====
-- The crate `shared` (shared/src): what every contract uses.
pub mod Errors
pub mod Events
pub mod Auth
pub mod Math
pub mod Payments
pub mod Batch
mod Tests
