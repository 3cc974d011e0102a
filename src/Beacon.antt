-- ===== src/Beacon.antt =====
-- internal/source/beaconapi: the parts of the Beacon API client that decide something from what the
-- node answered.
pub mod Cache
pub mod Spec
pub mod Bitlist
pub mod Committees
pub mod Roots
pub mod Inclusion
pub mod Genesis
