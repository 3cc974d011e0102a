-- ===== src/Clock.antt =====
-- internal/clock: the measurement of the local clock's offset against NTP servers.
pub mod Backoff
pub mod Packet
pub mod Ntp
pub mod RoundTrip
pub mod Query
pub mod Accuracy
pub mod Sampler
pub mod Rounds
pub mod Tracker
use whymiss.Prelude.{String}
use whymiss.Prelude.Time.{Time, Duration}

-- reading.go
pub record Reading : Type 0 where
  pub server : String
  pub at : Time
  pub offset : Duration
  pub round_trip : Duration
