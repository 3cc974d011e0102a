-- ===== src/Tests.antt =====
-- The theorems applied to concrete slots.
pub mod Values
pub mod Slots
pub mod DomainExamples
pub mod RcaExamples
pub mod ClockExamples
pub mod BeaconExamples
pub mod InclusionExamples
pub mod AssemblyExamples
