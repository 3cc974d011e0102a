-- ===== src/Rca.antt =====
-- internal/rca: from the timeline of a slot to a verdict.
pub mod Config
pub mod Stages
pub mod Facts
pub mod Outcome
pub mod Draft
pub mod Rules
pub mod Evidence
pub mod Engine
