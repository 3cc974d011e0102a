-- ===== src/Domain/Schedule.antt =====
-- internal/domain/schedule.go: the timing model of a slot. Every field is a `time.Duration`.
pub mod Rules
use whymiss.Prelude.{ℕ, Bool, true, false, ◌&&◌, Option, none, some, if◌then◌else◌}
use whymiss.Prelude.Int.{ℤ, pos, ltb_ℤ, leb_ℤ, eqb_ℤ}
use whymiss.Prelude.Time.{Time, Duration, add_time}
use whymiss.Domain.Errors.{Err, invalid}

pub record SlotSchedule : Type 0 where
  pub seconds_per_slot : Duration
  pub attestation_deadline : Duration
  pub aggregation_deadline : Duration
  pub payload_reveal_deadline : Duration
  pub ptc_deadline : Duration

abbrev pub max_supported_slot_duration : Duration
max_supported_slot_duration = pos 60000000000

unfoldable pub is_post_epbs : SlotSchedule → Bool
is_post_epbs s = ltb_ℤ (pos 0) s.payload_reveal_deadline

abbrev pub mainnet_pre_epbs : SlotSchedule
mainnet_pre_epbs = record {
  seconds_per_slot = pos 12000000000;
  attestation_deadline = pos 4000000000;
  aggregation_deadline = pos 8000000000;
  payload_reveal_deadline = pos 0;
  ptc_deadline = pos 0;
}

-- The cases of the `switch`, in its order.
unfoldable pub validate : SlotSchedule → Option Err
validate s =
    if leb_ℤ seconds_per_slot (pos 0)
    then some invalid
    else if ltb_ℤ max_supported_slot_duration seconds_per_slot
    then some invalid
    else if leb_ℤ attestation_deadline (pos 0)
    then some invalid
    else if leb_ℤ aggregation_deadline (pos 0)
    then some invalid
    else if ltb_ℤ aggregation_deadline attestation_deadline
    then some invalid
    else if ltb_ℤ seconds_per_slot aggregation_deadline
    then some invalid
    else if ltb_ℤ payload_reveal_deadline (pos 0)
    then some invalid
    else if ltb_ℤ ptc_deadline (pos 0)
    then some invalid
    else if ltb_ℤ (pos 0) ptc_deadline && eqb_ℤ payload_reveal_deadline (pos 0)
    then some invalid
    else if ltb_ℤ (pos 0) payload_reveal_deadline
        && leb_ℤ payload_reveal_deadline attestation_deadline
    then some invalid
    else if ltb_ℤ seconds_per_slot payload_reveal_deadline
    then some invalid
    else if ltb_ℤ (pos 0) ptc_deadline && leb_ℤ ptc_deadline payload_reveal_deadline
    then some invalid
    else if ltb_ℤ seconds_per_slot ptc_deadline
    then some invalid
    else none
  where
    open s use {
      seconds_per_slot, attestation_deadline, aggregation_deadline, payload_reveal_deadline,
      ptc_deadline,
    }

unfoldable pub attestation_deadline_at : SlotSchedule → Time → Time
attestation_deadline_at s slot_start = add_time slot_start s.attestation_deadline

unfoldable pub slot_end_at : SlotSchedule → Time → Time
slot_end_at s slot_start = add_time slot_start s.seconds_per_slot

-- The second return value, false, is `none`.
unfoldable pub payload_reveal_deadline_at : SlotSchedule → Time → Option Time
unfolding is_post_epbs
payload_reveal_deadline_at s slot_start =
    if is_post_epbs s then some (add_time slot_start s.payload_reveal_deadline) else none

unfoldable pub ptc_deadline_at : SlotSchedule → Time → Option Time
ptc_deadline_at s slot_start =
    if leb_ℤ s.ptc_deadline (pos 0) then none else some (add_time slot_start s.ptc_deadline)
