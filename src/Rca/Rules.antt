-- ===== src/Rca/Rules.antt =====
-- internal/rca/rules: one module for each rule. `Evaluate` returns a draft, or `none` where the
-- source returns nil and false.
pub mod DataCompleteness
pub mod ClockTrust
pub mod ProposerMissed
pub mod PayloadLate
pub mod NetworkLateBlock
pub mod P2pDegraded
pub mod ElSlow
pub mod ClSlow
pub mod VcDisconnected
pub mod VcSlow
pub mod InclusionFailure
pub mod HostFallback
pub mod CatchAll
