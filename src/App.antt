-- ===== src/App.antt =====
-- internal/app: the parts of the daemon that keep a state of their own.
pub mod EngineWindows
pub mod ClockStamp
pub mod BlockTiming
pub mod StreamHealth
pub mod HeadFanout
