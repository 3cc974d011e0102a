-- ===== src/Beacon/Genesis.antt =====
-- internal/source/beaconapi/genesis.go: when a slot begins.
use whymiss.Prelude.{ℕ, ◌/◌, ◌||◌, ltb, if◌then◌else◌}
use whymiss.Prelude.Int.{pos, pos_part, ◌*ℤ◌, wrap64, leb_ℤ, max_int64}
use whymiss.Prelude.Time.{Time, Duration, add_time}

pub record GenesisInfo : Type 0 where
  pub genesis_time : Time
  pub slot_duration : Duration

-- `SlotStart`: a slot too far off for a duration begins at the greatest one.
unfoldable pub start_of_slot : GenesisInfo → ℕ → Time
start_of_slot g slot =
    if leb_ℤ g.slot_duration (pos 0) || ltb (9223372036854775807 / pos_part g.slot_duration) slot
    then add_time g.genesis_time max_int64
    else add_time g.genesis_time (wrap64 (pos slot *ℤ g.slot_duration))
