-- ===== src/Domain/Slot.antt =====
-- internal/domain/slot.go: slots and epochs (uint64), and the attestation-inclusion window.
pub mod Window
use whymiss.Prelude.{
  ℕ, ◌+◌, ◌-◌, ◌*◌, ◌/◌, ◌%◌, Bool, true, false, ◌||◌, ltb, leb, if◌then◌else◌, String,
}
use whymiss.Prelude.Int.{ℤ, pos, leb_ℤ, ◌*ℤ◌, wrap64, max_int64, u64_mod}
use whymiss.Prelude.Time.{Time, Duration, add_time}

abbrev pub slots_per_epoch : ℕ
slots_per_epoch = 32

abbrev pub max_uint64 : ℕ
max_uint64 = 18446744073709551615

unfoldable pub epoch : ℕ → ℕ
epoch s = s / slots_per_epoch

unfoldable pub first_slot : ℕ → ℕ
first_slot e = (e * slots_per_epoch) % u64_mod

unfoldable pub last_attestation_inclusion_slot : ℕ → ℕ
unfolding epoch first_slot
last_attestation_inclusion_slot s =
    if leb (max_uint64 / slots_per_epoch - 1) (epoch s)
    then max_uint64
    else (first_slot ((epoch s + 2) % u64_mod) + u64_mod - 1) % u64_mod

-- uint64(s.LastAttestationInclusionSlot() - s)
unfoldable pub window_slots : ℕ → ℕ
unfolding last_attestation_inclusion_slot
window_slots s = (last_attestation_inclusion_slot s + u64_mod - s) % u64_mod

unfoldable pub collection_window_end : ℕ → Time → Duration → Time
collection_window_end s slot_start seconds_per_slot =
    if ltb (slots_per_epoch * 2 - 1) (window_slots s) || leb_ℤ seconds_per_slot (pos 0)
    then add_time slot_start max_int64
    else add_time slot_start (wrap64 (pos (window_slots s + 1) *ℤ seconds_per_slot))

-- The adapters that produce values; `no_source` is the empty text.
pub data SourceId : Type 0 where
  beaconapi promscrape hostmetrics clock xatu derived no_source : SourceId
  other_source : String → SourceId

unfoldable pub source_valid : SourceId → Bool
source_valid no_source = false
source_valid (other_source _) = false
source_valid _ = true

-- The stages of the latency budget.
pub data Stage : Type 0 where
  propagation validation signing : Stage
  other_stage : String → Stage
