-- ===== src/Domain.antt =====
-- The vocabulary and the data of internal/domain.
pub mod Errors
pub mod Slot
pub mod Schedule
pub mod Duty
pub mod Kinds
pub mod Attrs
pub mod Observation
pub mod Sample
pub mod Timeline
pub mod Cause
pub mod Verdict
